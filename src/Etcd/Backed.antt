-- ===== src/Etcd/Backed.antt =====
-- zdiscovery/etcd.go: what etcd holds for this process is registered here.
use zhenyi.Prelude.{
  ℕ, ◌≡◌, refl, sym, ◌∙◌, subst, Bool, true, false, ◌&&◌, ◌||◌, List, [], ◌∷◌, ◌++◌, Option, none,
  some, ◌==◌, if◌then◌else◌, arith, if_elim,
}
use zhenyi.Model.{ActorConfig}
use zhenyi.Etcd.Registry.{
  Call, put, delete, revoke, Etcd, same_key, erase_key, registered_of, call, create_shared_lease,
  ensure_lease, register_put, register, erase_registered, unregister, revoke_old, Recreation,
  at_rest, granted, putting, begin_recreation, recreate_lease_and_reregister, unregister_each,
  drop_lease, close_all, Op, registers, unregisters, recreates, closes, apply_op, run,
}

-- Whether the key of an actor is in etcd after a call.
unfoldable pub holds_after : ActorConfig → Call → Bool → Bool
holds_after c (put put_ok a lease) b = if put_ok && same_key a c then true else b
holds_after c (delete delete_ok a) b = if delete_ok && same_key a c then false else b
holds_after c (revoke lease) b = b

unfoldable pub held_from : ActorConfig → Bool → List Call → Bool
held_from c b [] = b
held_from c b (x ∷ xs) = held_from c (holds_after c x b) xs

unfoldable pub is_registered : ActorConfig → List ActorConfig → Bool
is_registered c [] = false
is_registered c (a ∷ reg) = same_key a c || is_registered c reg

-- A key that a put has brought in, with no deletion of it since, is registered.
unfoldable pub Backed : Etcd → Type 0
Backed d =
    (c : ActorConfig)
    → held_from c false d.calls ≡ true
    → is_registered c (registered_of d.registered_actors) ≡ true

held_from-append :
    (c : ActorConfig) (b : Bool) (xs ys : List Call)
    → held_from c b (xs ++ ys) ≡ held_from c (held_from c b xs) ys
unfolding held_from
held_from-append c b [] ys = refl
held_from-append c b (x ∷ xs) ys = held_from-append c (holds_after c x b) xs ys

is_registered-erase_key :
    (x c : ActorConfig) (reg : List ActorConfig)
    → same_key x c ≡ false
    → is_registered c (erase_key x reg) ≡ is_registered c reg
unfolding is_registered erase_key same_key
is_registered-erase_key x c [] h = refl
is_registered-erase_key x c (a ∷ reg) h = ground (arith, h, is_registered-erase_key x c reg h)

added :
    (x c : ActorConfig) (reg : List ActorConfig) (b : Bool)
    → (if same_key x c then true else b) ≡ true
    → (b ≡ true → is_registered c reg ≡ true)
    → is_registered c (x ∷ erase_key x reg) ≡ true
unfolding is_registered
added x c reg b h old = ground (arith, h, old, is_registered-erase_key x c reg)

removed :
    (x c : ActorConfig) (reg : Option (List ActorConfig)) (b : Bool)
    → (if same_key x c then false else b) ≡ true
    → (b ≡ true → is_registered c (registered_of reg) ≡ true)
    → is_registered c (registered_of (erase_registered x reg)) ≡ true
unfolding registered_of erase_registered
removed x c none b h old = ground (arith, h, old)
removed x c (some reg) b h old = ground (arith, h, old, is_registered-erase_key x c reg)

-- The state after one call, with the registered actors that the code then has.
called-Backed :
    (x : Call) (d : Etcd) (reg : Option (List ActorConfig))
    → ((c : ActorConfig)
        → holds_after c x (held_from c false d.calls) ≡ true
        → (held_from c false d.calls ≡ true
            → is_registered c (registered_of d.registered_actors) ≡ true)
        → is_registered c (registered_of reg) ≡ true)
    → Backed d
    → (c : ActorConfig) → held_from c false (d.calls ++ (x ∷ [])) ≡ true
    → is_registered c (registered_of reg) ≡ true
unfolding Backed held_from
called-Backed x d reg step back c h =
    step c (sym (held_from-append c false d.calls (x ∷ [])) ∙ h) (back c)

create-Backed : (grant : Option ℕ) (d : Etcd) → Backed d → Backed ((create_shared_lease grant d).0)
unfolding create_shared_lease Backed
create-Backed none d back = back
create-Backed (some lease) d back = back

ensure-Backed : (grant : Option ℕ) (d : Etcd) → Backed d → Backed ((ensure_lease grant d).0)
unfolding ensure_lease
ensure-Backed grant d back =
    if_elim {A = Etcd × Bool} (λ r. Backed r.0) (d.shared_lease_id == 0)
      (λ _. create-Backed grant d back) (λ _. back)

register_put-Backed :
    (put_ok : Bool) (c : ActorConfig) (r : Etcd × Bool)
    → Backed (r.0)
    → Backed ((register_put put_ok c r).0)
unfolding register_put Backed call holds_after registered_of
register_put-Backed put_ok c (d, false) back = back
register_put-Backed false c (d, true) back =
    called-Backed (put false c d.shared_lease_id) d d.registered_actors (λ c' h old. old h) back
register_put-Backed true c (d, true) back =
    called-Backed (put true c d.shared_lease_id) d
      (some (c ∷ erase_key c (registered_of d.registered_actors)))
      (λ c' h old.
        added c c' (registered_of d.registered_actors) (held_from c' false d.calls) h old)
      back

unregister-Backed :
    (delete_ok : Bool) (c : ActorConfig) (d : Etcd)
    → Backed d
    → Backed ((unregister delete_ok c d).0)
unfolding unregister Backed call holds_after registered_of
unregister-Backed false c d back =
    called-Backed (delete false c) d d.registered_actors (λ c' h old. old h) back
unregister-Backed true c d back =
    called-Backed (delete true c) d (erase_registered c d.registered_actors)
      (λ c' h old. removed c c' d.registered_actors (held_from c' false d.calls) h old) back

unregister_each-Backed :
    (delete_ok : ActorConfig → Bool) (cs : List ActorConfig) (d : Etcd)
    → Backed d
    → Backed (unregister_each delete_ok cs d)
unfolding unregister_each
unregister_each-Backed delete_ok [] d back = back
unregister_each-Backed delete_ok (c ∷ cs) d back =
    unregister_each-Backed delete_ok cs _ (unregister-Backed (delete_ok c) c d back)

drop_lease-Backed : (d : Etcd) → Backed d → Backed (drop_lease d)
unfolding drop_lease Backed call holds_after
drop_lease-Backed d back =
    if_elim Backed (d.shared_lease_id == 0) (λ _. back)
      (λ _. called-Backed (revoke d.shared_lease_id) d d.registered_actors (λ c h old. old h) back)

-- The actors that a recreation has still to put.
unfoldable pub pending : Recreation → List ActorConfig
pending at_rest = []
pending (granted old lease) = []
pending (putting old lease reg) = reg

-- Those are registered.
unfoldable pub Live : Etcd → List ActorConfig → Type 0
Live d reg =
    (c : ActorConfig)
    → is_registered c reg ≡ true
    → is_registered c (registered_of d.registered_actors) ≡ true

-- Nothing that a recreation has still to put is unregistered meanwhile.
unfoldable pub Apart : Op → List ActorConfig → Type 0
Apart (registers grant put_ok c) reg = Unit
Apart (unregisters delete_ok c) reg = is_registered c reg ≡ false
Apart (recreates grant put_ok) reg = Unit
Apart (closes delete_ok) reg = reg ≡ []

unfoldable pub Undisturbed : List Op → Etcd × Recreation → Type 0
Undisturbed [] s = Unit
Undisturbed (op ∷ ops) s = Apart op (pending (s.1)) × Undisturbed ops (apply_op op s)

is_registered-same :
    (x c : ActorConfig) (reg : List ActorConfig)
    → same_key x c ≡ true
    → is_registered x reg ≡ is_registered c reg
unfolding is_registered same_key
is_registered-same x c [] h = refl
is_registered-same x c (a ∷ reg) h = ground (arith, h, is_registered-same x c reg h)

pub Live-nothing : (d : Etcd) → Live d []
unfolding Live is_registered
Live-nothing d c h = absurd (cc)

create-Live :
    (grant : Option ℕ) (d : Etcd) (reg : List ActorConfig)
    → Live d reg
    → Live ((create_shared_lease grant d).0) reg
unfolding create_shared_lease Live
create-Live none d reg live = live
create-Live (some lease) d reg live = live

ensure-Live :
    (grant : Option ℕ) (d : Etcd) (reg : List ActorConfig)
    → Live d reg
    → Live ((ensure_lease grant d).0) reg
unfolding ensure_lease
ensure-Live grant d reg live =
    if_elim {A = Etcd × Bool} (λ r. Live r.0 reg) (d.shared_lease_id == 0)
      (λ _. create-Live grant d reg live) (λ _. live)

register_put-Live :
    (put_ok : Bool) (x : ActorConfig) (r : Etcd × Bool) (reg : List ActorConfig)
    → Live (r.0) reg
    → Live ((register_put put_ok x r).0) reg
unfolding register_put Live call registered_of is_registered
register_put-Live put_ok x (d, false) reg live = live
register_put-Live false x (d, true) reg live = live
register_put-Live true x (d, true) reg live =
    λ c h. ground (arith, live c h, is_registered-erase_key x c (registered_of d.registered_actors))

register-Live :
    (grant : Option ℕ) (put_ok : Bool) (x : ActorConfig) (d : Etcd) (reg : List ActorConfig)
    → Live d reg
    → Live ((register grant put_ok x d).0) reg
unfolding register
register-Live grant put_ok x d reg live =
    register_put-Live put_ok x (ensure_lease grant d) reg (ensure-Live grant d reg live)

-- Taking one actor out keeps the others.
kept :
    (x c : ActorConfig) (o : Option (List ActorConfig))
    → same_key x c ≡ false
    → is_registered c (registered_of o) ≡ true
    → is_registered c (registered_of (erase_registered x o)) ≡ true
unfolding registered_of erase_registered
kept x c none other h = h
kept x c (some reg) other h = is_registered-erase_key x c reg other ∙ h

differs :
    (x c : ActorConfig) (reg : List ActorConfig)
    → is_registered x reg ≡ false
    → is_registered c reg ≡ true
    → same_key x c ≡ false
differs x c reg apart h = ground (arith, apart, h, is_registered-same x c reg)

unregister-Live :
    (delete_ok : Bool) (x : ActorConfig) (d : Etcd) (reg : List ActorConfig)
    → is_registered x reg ≡ false
    → Live d reg
    → Live ((unregister delete_ok x d).0) reg
unfolding unregister Live call
unregister-Live false x d reg apart live = live
unregister-Live true x d reg apart live =
    λ c h. kept x c d.registered_actors (differs x c reg apart h) (live c h)

-- A put of an actor that is still to put.
put_registered :
    (put_ok : Bool) (x c : ActorConfig) (reg : List ActorConfig) (lease : ℕ) (b r : Bool)
    → holds_after c (put put_ok x lease) b ≡ true
    → (b ≡ true → r ≡ true)
    → (is_registered c (x ∷ reg) ≡ true → r ≡ true)
    → r ≡ true
unfolding holds_after is_registered
put_registered put_ok x c reg lease b r h was live = ground (arith, h, was, live)

still_pending :
    (x c : ActorConfig) (reg : List ActorConfig)
    → is_registered c reg ≡ true
    → is_registered c (x ∷ reg) ≡ true
unfolding is_registered
still_pending x c reg h = ground (arith, h)

recreate-Backed :
    (grant : Option ℕ) (put_ok : Bool) (d : Etcd) (r : Recreation)
    → Backed d
    → Live d (pending r)
    → let s = recreate_lease_and_reregister grant put_ok d r in
      Backed (s.0) × Live (s.0) (pending (s.1))
unfolding recreate_lease_and_reregister begin_recreation create_shared_lease revoke_old call Backed
    Live pending holds_after is_registered
recreate-Backed none put_ok d at_rest back live = (back, live)
recreate-Backed (some lease) put_ok d at_rest back live = (back, live)
recreate-Backed grant put_ok d (granted old lease) back live = (back, λ c h. h)
recreate-Backed grant put_ok d (putting old lease (x ∷ reg)) back live = (
  called-Backed (put put_ok x lease) d d.registered_actors
      (λ c h was.
        put_registered put_ok x c reg lease (held_from c false d.calls)
          (is_registered c (registered_of d.registered_actors)) h was (live c))
      back,
  (λ c h. live c (still_pending x c reg h)),
)
recreate-Backed grant put_ok d (putting old lease []) back live = (
  if_elim Backed (old == 0) (λ _. back)
      (λ _. called-Backed (revoke old) d d.registered_actors (λ c h was. was h) back),
  if_elim (λ t. Live t []) (old == 0) (λ _. Live-nothing d)
      (λ _. Live-nothing (call (revoke old) d)),
)

apply_op-Backed :
    (op : Op) (s : Etcd × Recreation)
    → Apart op (pending (s.1))
    → Backed (s.0)
    → Live (s.0) (pending (s.1))
    → Backed ((apply_op op s).0) × Live ((apply_op op s).0) (pending ((apply_op op s).1))
unfolding apply_op register close_all Backed Apart Live
apply_op-Backed (registers grant put_ok c) (d, r) apart back live = (
  register_put-Backed put_ok c (ensure_lease grant d) (ensure-Backed grant d back),
  register-Live grant put_ok c d (pending r) live,
)
apply_op-Backed (unregisters delete_ok c) (d, r) apart back live =
    (unregister-Backed delete_ok c d back, unregister-Live delete_ok c d (pending r) apart live)
apply_op-Backed (recreates grant put_ok) (d, r) apart back live =
    recreate-Backed grant put_ok d r back live
apply_op-Backed (closes delete_ok) (d, r) apart back live = (
  drop_lease-Backed _ (unregister_each-Backed delete_ok (registered_of d.registered_actors) d back),
  subst (Live (close_all delete_ok d)) (sym apart) (Live-nothing (close_all delete_ok d)),
)

-- In a run of registrations, deregistrations, closings and single steps of a recreation of the lease,
-- whichever of their calls fail, an actor whose key a put has brought into etcd, with no deletion of it
-- since, is registered, if that held at the start and of what a recreation had still to put, and if
-- no actor is unregistered, and the discovery not closed, while the recreation has loaded the map and
-- not yet put the actor: apart from that window a recreation brings back no unregistered actor.
pub run-Backed :
    (ops : List Op) (s : Etcd × Recreation)
    → Undisturbed ops s
    → Backed (s.0)
    → Live (s.0) (pending (s.1))
    → Backed ((run ops s).0)
unfolding run Undisturbed
run-Backed [] s apart back live = back
run-Backed (op ∷ ops) s (here, apart) back live =
    let (next, later) = apply_op-Backed op s here back live in
    run-Backed ops (apply_op op s) apart next later
