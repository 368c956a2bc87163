-- ===== src/Etcd/Registry.antt =====
-- zdiscovery/etcd.go: registrations and the shared lease. The client of etcd is a parameter by its answers:
-- whether a call succeeds, and the lease that a grant makes. The calls are a log, each put and
-- deletion with whether it succeeded. The registered
-- actors are a map by their keys, so by type and id; `Range` over it takes them in its order. A
-- recreation of the lease runs beside the other operations, one access at a time; a registration, a
-- deregistration and a closing are one step each, and at most one recreation is under way.
use zhenyi.Prelude.{
  ℕ, Bool, true, false, ◌&&◌, List, [], ◌∷◌, ◌++◌, Option, none, some, ◌==◌, if◌then◌else◌,
}
use zhenyi.Model.{ActorConfig}
use zhenyi.Etcd.Cache.{Cache, map_of, of_type, has_id, append_cached, drop_cached}

pub data Call : Type 0 where
  put : Bool → ActorConfig → ℕ → Call
  delete : Bool → ActorConfig → Call
  revoke : ℕ → Call

pub record Etcd : Type 0 where
  pub cache : Option Cache
  pub shared_lease_id : ℕ
  pub registered_actors : Option (List ActorConfig)
  pub calls : List Call
  pub cancelled : Bool

unfoldable pub same_key : ActorConfig → ActorConfig → Bool
same_key a b = a.actor_type == b.actor_type && a.id == b.id

unfoldable pub erase_key : ActorConfig → List ActorConfig → List ActorConfig
erase_key c [] = []
erase_key c (a ∷ actors) = let rest = erase_key c actors in if same_key a c then rest else a ∷ rest

unfoldable pub registered_of : Option (List ActorConfig) → List ActorConfig
registered_of none = []
registered_of (some reg) = reg

unfoldable pub call : Call → Etcd → Etcd
call c d = record d { calls = d.calls ++ (c ∷ []) }

-- `createSharedLeaseLocked`, with what the grant answers.
unfoldable pub create_shared_lease : Option ℕ → Etcd → Etcd × Bool
create_shared_lease none d = (d, false)
create_shared_lease (some lease) d = (record d { shared_lease_id = lease }, true)

-- A lease is made when there is none.
unfoldable pub ensure_lease : Option ℕ → Etcd → Etcd × Bool
ensure_lease grant d = if d.shared_lease_id == 0 then create_shared_lease grant d else (d, true)

unfoldable pub cache_registered : ActorConfig → Option Cache → Option Cache
cache_registered c cache =
    if has_id c.id (of_type c.actor_type (map_of cache))
    then cache
    else some (append_cached c (map_of cache))

-- The rest of `Register`, with whether the put succeeded.
unfoldable pub register_put : Bool → ActorConfig → Etcd × Bool → Etcd × Bool
register_put put_ok c (d, false) = (d, false)
register_put false c (d, true) = (call (put false c d.shared_lease_id) d, false)
register_put true c (d, true) = (
  record (call (put true c d.shared_lease_id) d) {
    registered_actors = some (c ∷ erase_key c (registered_of d.registered_actors));
    cache = cache_registered c d.cache;
  },
  true,
)

unfoldable pub register : Option ℕ → Bool → ActorConfig → Etcd → Etcd × Bool
register grant put_ok c d = register_put put_ok c (ensure_lease grant d)

unfoldable pub erase_registered :
    ActorConfig → Option (List ActorConfig) → Option (List ActorConfig)
erase_registered c none = none
erase_registered c (some reg) = some (erase_key c reg)

unfoldable pub uncache : ActorConfig → Option Cache → Option Cache
uncache c none = none
uncache c (some m) = some (drop_cached c.actor_type c.id m)

unfoldable pub unregister : Bool → ActorConfig → Etcd → Etcd × Bool
unregister false c d = (call (delete false c) d, false)
unregister true c d = (
  record (call (delete true c) d) {
    registered_actors = erase_registered c d.registered_actors;
    cache = uncache c d.cache;
  },
  true,
)

unfoldable pub revoke_old : ℕ → Etcd → Etcd
revoke_old old d = if old == 0 then d else call (revoke old) d

-- Where a recreation stands: not begun; with the old lease and the new one; and with the actors of the
-- map that it loaded which it has still to put.
pub data Recreation : Type 0 where
  at_rest : Recreation
  granted : ℕ → ℕ → Recreation
  putting : ℕ → ℕ → List ActorConfig → Recreation

unfoldable pub begin_recreation : Option ℕ → Etcd → Etcd × Recreation
begin_recreation none d = (d, at_rest)
begin_recreation (some lease) d =
    ((create_shared_lease (some lease) d).0, granted d.shared_lease_id lease)

-- The next access of `recreateLeaseAndReregister`, with what a grant or a put answers; a put that fails
-- is only logged.
unfoldable pub recreate_lease_and_reregister :
    Option ℕ → Bool → Etcd → Recreation → Etcd × Recreation
recreate_lease_and_reregister grant put_ok d at_rest = begin_recreation grant d
recreate_lease_and_reregister grant put_ok d (granted old lease) =
    (d, putting old lease (registered_of d.registered_actors))
recreate_lease_and_reregister grant put_ok d (putting old lease (c ∷ reg)) =
    (call (put put_ok c lease) d, putting old lease reg)
recreate_lease_and_reregister grant put_ok d (putting old lease []) = (revoke_old old d, at_rest)

-- The loop of `CloseAll`, with which deletions succeed.
unfoldable pub unregister_each : (ActorConfig → Bool) → List ActorConfig → Etcd → Etcd
unregister_each delete_ok [] d = d
unregister_each delete_ok (c ∷ cs) d =
    unregister_each delete_ok cs ((unregister (delete_ok c) c d).0)

unfoldable pub drop_lease : Etcd → Etcd
drop_lease d =
    if d.shared_lease_id == 0
    then d
    else record (call (revoke d.shared_lease_id) d) { shared_lease_id = 0 }

unfoldable pub close_all : (ActorConfig → Bool) → Etcd → Etcd
close_all delete_ok d =
    let left = unregister_each delete_ok (registered_of d.registered_actors) d in
    record (drop_lease left) { cancelled = true }

pub data Op : Type 0 where
  registers : Option ℕ → Bool → ActorConfig → Op
  unregisters : Bool → ActorConfig → Op
  recreates : Option ℕ → Bool → Op
  closes : (ActorConfig → Bool) → Op

unfoldable pub apply_op : Op → Etcd × Recreation → Etcd × Recreation
apply_op (registers grant put_ok c) (d, r) = ((register grant put_ok c d).0, r)
apply_op (unregisters delete_ok c) (d, r) = ((unregister delete_ok c d).0, r)
apply_op (recreates grant put_ok) (d, r) = recreate_lease_and_reregister grant put_ok d r
apply_op (closes delete_ok) (d, r) = (close_all delete_ok d, r)

unfoldable pub run : List Op → Etcd × Recreation → Etcd × Recreation
run [] s = s
run (op ∷ ops) s = run ops (apply_op op s)
