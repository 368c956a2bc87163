-- ===== src/Etcd/View.antt =====
-- zdiscovery/etcd.go and zactor/group.go: the group takes the notices of the discovery from its channel.
use zhenyi.Prelude.{
  ℕ, ◌<◌, ◌≡◌, refl, ap, sym, ◌∙◌, subst, ◌&&◌, List, [], ◌∷◌, ◌++◌, Option, none, some, ◌==◌,
  ==_ne, if◌then◌else◌, arith, if_elim, length, lt→ltb,
}
use zhenyi.Prelude.Maps.{lookup, lookup-insert, lookup-erase}
use zhenyi.Model.{ActorConfig}
use zhenyi.Actor.Discovery.{Discovery, watched}
use zhenyi.Etcd.Cache.{map_of}
use zhenyi.Etcd.Events.{
  Event, puts, deletes, View, offer, notice, handle_put, deleted_key, delete_at, handle_delete,
  handle,
}
use zhenyi.Etcd.Once.{EachOnce, cached}
use zhenyi.Etcd.Latest.{latest_after, cached-handle, handle-EachOnce}

pub record Link : Type 0 where
  pub discovery : View
  pub group : Discovery

-- An event arrives, or the group takes a notice.
pub data Step : Type 0 where
  arrives : Event → Step
  takes : Step

unfoldable pub take_notice : List ActorConfig → Link → Link
take_notice [] l = l
take_notice (c ∷ ch) l = record {
  discovery = record (l.discovery) { ch = ch };
  group = watched c l.group;
}

unfoldable pub step : Step → Link → Link
step (arrives e) l = record l { discovery = handle e l.discovery }
step takes l = take_notice l.discovery.ch l

unfoldable pub run : List Step → Link → Link
run [] l = l
run (s ∷ ss) l = run ss (step s l)

-- The group once it has taken notices.
unfoldable pub consume : List ActorConfig → Discovery → Discovery
consume [] g = g
consume (c ∷ ch) g = consume ch (watched c g)

offer-ch : (c : ActorConfig) (d : View) → length d.ch < 100 → (offer c d).ch ≡ d.ch ++ (c ∷ [])
unfolding offer
offer-ch c d low = rw (lt→ltb (length d.ch) 100 low)

consume-append :
    (c : ActorConfig) (ch : List ActorConfig) (g : Discovery)
    → consume (ch ++ (c ∷ [])) g ≡ watched c (consume ch g)
unfolding consume
consume-append c [] g = refl
consume-append c (b ∷ ch) g = consume-append c ch (watched b g)

lookup-watched :
    (c : ActorConfig) (id : ℕ) (g : Discovery)
    → 0 < c.id
    → lookup id (watched c g).others
      ≡ (if c.id == id then (if c.actor_type == 0 then none else some c) else lookup id g.others)
unfolding watched
lookup-watched c id g pos = rw (==_ne c.id 0 (λ e. absurd (omega arith))) (
    if_elim
      (λ r.
        lookup id r
        ≡ (if c.id == id then (if c.actor_type == 0 then none else some c) else lookup id g.others))
      (c.actor_type == 0) (λ e. ground (arith, e, lookup-erase c.id id g.others))
      (λ e. ground (arith, e, lookup-insert c.id id c g.others)))

-- The group takes a notice that was offered at last.
offered :
    (c : ActorConfig) (id : ℕ) (d : View) (g : Discovery)
    → 0 < c.id
    → length d.ch < 100
    → lookup id (consume (offer c d).ch g).others ≡ (
        if c.id == id
        then (if c.actor_type == 0 then none else some c)
        else lookup id (consume d.ch g).others)
offered c id d g pos low =
    ap (λ r. lookup id (consume r g).others) (offer-ch c d low)
    ∙ (ap (λ r. lookup id r.others) (consume-append c d.ch g)
        ∙ lookup-watched c id (consume d.ch g) pos)

module _ (type_of : ℕ → ℕ) where
  -- An event is of an actor with an id and the type of this id, neither of them 0.
  unfoldable pub Typed : Event → Type 0
  Typed (puts none) = Unit
  Typed (puts (some c)) = (c.actor_type ≡ type_of c.id) × (0 < c.id) × (0 < c.actor_type)
  Typed (deletes before key) =
      let k = deleted_key before key in (k.0 ≡ type_of k.1) × (0 < k.1) × (0 < k.0)

  -- The events are typed, and none finds the channel full.
  unfoldable pub Room : List Step → Link → Type 0
  Room [] l = Unit
  Room (takes ∷ ss) l = Room ss (step takes l)
  Room (arrives e ∷ ss) l = Typed e × (length l.discovery.ch < 100) × Room ss (step (arrives e) l)

  -- The group, once it has taken the notices that wait, has what the cache has.
  pub record InStep (l : Link) : Type 0 where
    pub once : EachOnce (map_of l.discovery.cache)
    pub agrees :
        (id : ℕ)
        → lookup id (consume l.discovery.ch l.group).others
          ≡ cached (type_of id) id (map_of l.discovery.cache)

  take_notice-InStep :
      (ch : List ActorConfig) (l : Link)
      → l.discovery.ch ≡ ch
      → InStep l
      → InStep (take_notice ch l)
  unfolding take_notice consume
  take_notice-InStep [] l e i = i
  take_notice-InStep (c ∷ ch) l e i = record {
    once = i.once;
    agrees = λ id.
        subst
          (λ r.
            lookup id (consume r l.group).others
            ≡ cached (type_of id) id (map_of l.discovery.cache))
          e (i.agrees id);
  }

  latest_put :
      (c : ActorConfig) (id : ℕ) (old : Option ActorConfig)
      → c.actor_type ≡ type_of c.id
      → 0 < c.actor_type
      → (if c.id == id then (if c.actor_type == 0 then none else some c) else old)
        ≡ (if c.actor_type == type_of id && c.id == id then some c else old)
  latest_put c id old typed pos =
      let same : c.id ≡ id → type_of c.id ≡ type_of id = λ q. ap type_of q in
      ground (arith, typed, pos, same)

  latest_delete :
      (u j id : ℕ) (old : Option ActorConfig)
      → u ≡ type_of j
      → (if j == id then none else old) ≡ (if u == type_of id && j == id then none else old)
  latest_delete u j id old typed =
      let same : j ≡ id → type_of j ≡ type_of id = λ q. ap type_of q in ground (arith, typed, same)

  delete_at-noticed :
      (k : ℕ × ℕ) (id : ℕ) (d : View) (g : Discovery)
      → k.0 ≡ type_of k.1
      → 0 < k.1
      → length d.ch < 100
      → lookup id (consume (delete_at k d).ch g).others
        ≡ (if k.0 == type_of id && k.1 == id then none else lookup id (consume d.ch g).others)
  unfolding delete_at
  delete_at-noticed (u, j) id d g typed pos low = rw (==_ne j 0 (λ e. absurd (omega (arith, e)))) (
      offered (notice j) id _ g pos low
      ∙ latest_delete u j id (lookup id (consume d.ch g).others) typed)

  handle-noticed :
      (e : Event) (id : ℕ) (d : View) (g : Discovery)
      → Typed e
      → length d.ch < 100
      → lookup id (consume (handle e d).ch g).others
        ≡ latest_after (type_of id) id e (lookup id (consume d.ch g).others)
  unfolding handle handle_put handle_delete latest_after Typed
  handle-noticed (puts none) id d g typed low = refl
  handle-noticed (puts (some c)) id d g (typed, pos, kind) low =
      offered c id _ g pos low ∙ latest_put c id (lookup id (consume d.ch g).others) typed kind
  handle-noticed (deletes before key) id d g (typed, pos, _) low =
      delete_at-noticed (deleted_key before key) id d g typed pos low

  step-InStep :
      (s : Step) (ss : List Step) (l : Link)
      → Room (s ∷ ss) l
      → InStep l
      → InStep (step s l) × Room ss (step s l)
  unfolding step Room
  step-InStep takes ss l room i = (take_notice-InStep l.discovery.ch l refl i, room)
  step-InStep (arrives e) ss l (typed, low, room) i = (
    record {
      once = handle-EachOnce e l.discovery i.once;
      agrees = λ id.
          handle-noticed e id l.discovery l.group typed low
          ∙ (ap (latest_after (type_of id) id e) (i.agrees id)
              ∙ sym (cached-handle e (type_of id) id l.discovery i.once));
    },
    room,
  )

  -- However the events of the watch and the group's reads of the channel interleave, while every put
  -- that decodes and every deletion gives an id and a type that are not 0, each id keeps to one type and
  -- no event finds the channel full, the group, once it has taken the notices that wait, has of every id
  -- the configuration that the cache has, if it was so before.
  pub run-InStep : (ss : List Step) (l : Link) → Room ss l → InStep l → InStep (run ss l)
  unfolding run
  run-InStep [] l room i = i
  run-InStep (s ∷ ss) l room i =
      let next = step-InStep s ss l room i in run-InStep ss (step s l) next.1 next.0
