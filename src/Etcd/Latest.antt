-- ===== src/Etcd/Latest.antt =====
-- zdiscovery/etcd.go: the cache has the latest of each actor.
use zhenyi.Prelude.{
  ℕ, ◌≤◌, ◌≡◌, refl, ap, sym, ◌∙◌, subst, ◌&&◌, List, [], ◌∷◌, Option, none, some, ◌==◌,
  if◌then◌else◌, arith, if_elim, length, ltb, ==_iff, Bool-cases, inl, inr,
}
use zhenyi.Prelude.Maps.{lookup, insert, lookup-insert}
use zhenyi.Model.{ActorConfig}
use zhenyi.Etcd.Cache.{
  Cache, slice_of, map_of, of_type, has_id, drop_first, put_config, put_cached, drop_cached,
}
use zhenyi.Etcd.Events.{
  Event, puts, deletes, View, offer, notice, handle_put, deleted_key, delete_cached, delete_at,
  handle_delete, handle, watch,
}
use zhenyi.Etcd.Once.{
  count_id, find_id, EachOnce, cached, find_id-put_config, find_id-drop_first, count_id-put_config,
  count_id-drop_first, find_id-missing,
}

of_type-insert :
    (k t : ℕ) (v : List ActorConfig) (m : Cache)
    → of_type t (insert k v m) ≡ (if k == t then v else of_type t m)
unfolding of_type slice_of
of_type-insert k t v m =
    ap slice_of (lookup-insert k t v m)
    ∙ if_elim (λ r. slice_of (if k == t then some v else lookup t m) ≡ r) (k == t)
        (λ e. ap (λ b. slice_of (if b then some v else lookup t m)) e)
        (λ e. ap (λ b. slice_of (if b then some v else lookup t m)) e)

-- The list of one type is replaced.
replaced :
    (P : List ActorConfig → Type 0) (k t : ℕ) (v : List ActorConfig) (m : Cache)
    → (k ≡ t → P v)
    → P (of_type t m)
    → P (of_type t (insert k v m))
replaced P k t v m hit miss =
    subst P (sym (of_type-insert k t v m))
      (if_elim P (k == t) (λ e. hit ((==_iff k t).0 e)) (λ _. miss))

pub put_cached-EachOnce : (c : ActorConfig) (m : Cache) → EachOnce m → EachOnce (put_cached c m)
unfolding put_cached EachOnce
put_cached-EachOnce c m once t id =
    replaced (λ r. count_id id r ≤ 1) c.actor_type t (put_config c (of_type c.actor_type m)) m
      (λ _. count_id-put_config id c (of_type c.actor_type m) (once c.actor_type id)) (once t id)

pub drop_cached-EachOnce : (u j : ℕ) (m : Cache) → EachOnce m → EachOnce (drop_cached u j m)
unfolding drop_cached EachOnce
drop_cached-EachOnce u j m once =
    if_elim EachOnce (has_id j (of_type u m))
      (λ _ t id.
        replaced (λ r. count_id id r ≤ 1) u t (drop_first j (of_type u m)) m
          (λ _. omega (arith, count_id-drop_first id j (of_type u m), once u id)) (once t id))
      (λ _. once)

pub cached-put_cached :
    (c : ActorConfig) (t id : ℕ) (m : Cache)
    → cached t id (put_cached c m)
      ≡ (if c.actor_type == t && c.id == id then some c else cached t id m)
unfolding put_cached cached
cached-put_cached c t id m =
    let e = of_type-insert c.actor_type t (put_config c (of_type c.actor_type m)) m in
    let same : c.actor_type ≡ t → of_type c.actor_type m ≡ of_type t m =
      λ q. ap (λ k. of_type k m) q in
    ground (arith, ap (find_id id) e, same, find_id-put_config id c (of_type c.actor_type m))

pub cached-drop_cached :
    (u j t id : ℕ) (m : Cache)
    → EachOnce m
    → cached t id (drop_cached u j m) ≡ (if u == t && j == id then none else cached t id m)
unfolding drop_cached cached EachOnce
cached-drop_cached u j t id m once =
    let kept = drop_first j (of_type u m) in
    let e = ap (find_id id) (of_type-insert u t kept m) in
    let same : u ≡ t → of_type u m ≡ of_type t m = λ q. ap (λ k. of_type k m) q in
    let other : j ≡ id → find_id j (of_type u m) ≡ find_id id (of_type u m) =
      λ q. ap (λ k. find_id k (of_type u m)) q in
    elim (Bool-cases (has_id j (of_type u m))) [
      | inl h ↦ ground (arith, h, e, same, find_id-drop_first id j (of_type u m) (once u j))
      | inr h ↦ ground (arith, h, same, other, find_id-missing j (of_type u m) h)
    ]

cached-delete_cached :
    (u j t id : ℕ) (cache : Option Cache)
    → EachOnce (map_of cache)
    → cached t id (map_of (delete_cached u j cache))
      ≡ (if u == t && j == id then none else cached t id (map_of cache))
unfolding delete_cached map_of cached of_type slice_of find_id lookup
cached-delete_cached u j t id none once =
    if_elim {A = Option ActorConfig} (λ r. none ≡ r) (u == t && j == id) (λ _. refl) (λ _. refl)
cached-delete_cached u j t id (some m) once = cached-drop_cached u j t id m once

delete_cached-EachOnce :
    (u j : ℕ) (cache : Option Cache)
    → EachOnce (map_of cache)
    → EachOnce (map_of (delete_cached u j cache))
unfolding delete_cached map_of
delete_cached-EachOnce u j none once = once
delete_cached-EachOnce u j (some m) once = drop_cached-EachOnce u j m once

offer-cache : (c : ActorConfig) (d : View) → (offer c d).cache ≡ d.cache
unfolding offer
offer-cache c d =
    if_elim {A = View} (λ r. r.cache ≡ d.cache) (ltb (length d.ch) 100) (λ _. refl) (λ _. refl)

-- What an event makes of the configuration of a type and an id.
unfoldable pub latest_after : (actor_type id : ℕ) → Event → Option ActorConfig → Option ActorConfig
latest_after t id (puts none) old = old
latest_after t id (puts (some c)) old = if c.actor_type == t && c.id == id then some c else old
latest_after t id (deletes before key) old =
    let k = deleted_key before key in if k.0 == t && k.1 == id then none else old

unfoldable pub latest : (actor_type id : ℕ) → List Event → Option ActorConfig → Option ActorConfig
latest t id [] old = old
latest t id (e ∷ es) old = latest t id es (latest_after t id e old)

delete_at-cache : (k : ℕ × ℕ) (d : View) → (delete_at k d).cache ≡ delete_cached k.0 k.1 d.cache
unfolding delete_at
delete_at-cache (u, j) d =
    if_elim {A = View} (λ r. r.cache ≡ delete_cached u j d.cache) (j == 0 && u == 0) (λ _. refl)
      (λ _. offer-cache (notice j) _)

pub handle-EachOnce :
    (e : Event) (d : View) → EachOnce (map_of d.cache) → EachOnce (map_of (handle e d).cache)
unfolding handle handle_put handle_delete map_of
handle-EachOnce (puts none) d once = once
handle-EachOnce (puts (some c)) d once =
    subst (λ r. EachOnce (map_of r)) (sym (offer-cache c _))
      (put_cached-EachOnce c (map_of d.cache) once)
handle-EachOnce (deletes before key) d once =
    let k = deleted_key before key in
    subst (λ r. EachOnce (map_of r)) (sym (delete_at-cache k d))
      (delete_cached-EachOnce k.0 k.1 d.cache once)

pub cached-handle :
    (e : Event) (t id : ℕ) (d : View)
    → EachOnce (map_of d.cache)
    → cached t id (map_of (handle e d).cache) ≡ latest_after t id e (cached t id (map_of d.cache))
unfolding handle handle_put handle_delete latest_after map_of
cached-handle (puts none) t id d once = refl
cached-handle (puts (some c)) t id d once =
    ap (λ r. cached t id (map_of r)) (offer-cache c _) ∙ cached-put_cached c t id (map_of d.cache)
cached-handle (deletes before key) t id d once =
    let k = deleted_key before key in
    ap (λ r. cached t id (map_of r)) (delete_at-cache k d)
    ∙ cached-delete_cached k.0 k.1 t id d.cache once

-- After any watched events, the cache has for each type and id the configuration of the latest put of
-- them that decodes and that no deletion follows, or else, without an event of theirs, the one that it
-- had, provided that no id was twice under one type before; and no id is then.
pub cached-watch :
    (es : List Event) (d : View)
    → EachOnce (map_of d.cache)
    → EachOnce (map_of (watch es d).cache)
      × ((t id : ℕ)
          → cached t id (map_of (watch es d).cache) ≡ latest t id es (cached t id (map_of d.cache)))
unfolding watch latest
cached-watch [] d once = (once, λ t id. refl)
cached-watch (e ∷ es) d once =
    let rest = cached-watch es (handle e d) (handle-EachOnce e d once) in
    (rest.0, λ t id. rest.1 t id ∙ ap (latest t id es) (cached-handle e t id d once))
