-- ===== src/Etcd/Tests.antt =====
-- zdiscovery/etcd.go: runs of the discovery and the theorems at concrete inputs.
use zhenyi.Prelude.{
  ℕ, ◌+◌, ◌^◌, ◌<◌, ◌≡◌, refl, true, false, List, [], ◌∷◌, ◌++◌, none, some, arith,
}
use zhenyi.Prelude.Maps.{lookup, insert}
use zhenyi.Model.{ActorConfig}
use zhenyi.Actor.Discovery.{new_discovery}
use zhenyi.Etcd.Cache.{
  map_of, of_type, slice_of, put_cached, put_config, has_id, replace_first, drop_cached, drop_first,
  panics, find_poll,
}
use zhenyi.Prelude.Digits.{decimal, decimal_from, parse_digits}
use zhenyi.Etcd.Keys.{
  slash, servers, key_of, parse_key, parse_key_to_actor_type, trim_prefix, after_prefix, or_whole,
  split, onto_first, two_parts, both, parse_uint, in_bits,
}
use zhenyi.Etcd.Events.{
  Event, puts, deletes, View, watch, handle, handle_put, handle_delete, offer, deleted_key, decoded,
  or_zero, delete_at, delete_cached,
}
use zhenyi.Etcd.Registry.{
  Etcd, Op, registers, unregisters, recreates, closes, at_rest, run, apply_op, register,
  register_put, ensure_lease, create_shared_lease, recreate_lease_and_reregister, begin_recreation,
  unregister, call, registered_of, same_key, erase_key, erase_registered, uncache,
}
use zhenyi.Etcd.Once.{EachOnce, cached, count_id, find_id}
use zhenyi.Etcd.Latest.{latest, cached-watch}
use zhenyi.Etcd.View.{
  Link, Step, arrives, takes, InStep, Room, Typed, step, take_notice, consume, run-InStep,
}
use zhenyi.Etcd.View
use zhenyi.Etcd.Backed.{
  Backed, Live, Live-nothing, Apart, Undisturbed, pending, run-Backed, held_from, holds_after,
  is_registered,
}
use zhenyi.Etcd.Decimal.{parse_key-key_of}

-- An actor of type `t` in process `p`.
abbrev actor : ℕ → ℕ → ℕ → ActorConfig
actor t id p = record {
  id = id;
  process = p;
  actor_type = t;
  index = 0;
  max_restarts = 0;
  supported_msg_ids = [];
}

abbrev cold : View
cold = record { cache = none; ch = [] }

-- Actor 7 moves to another process, and actor 8, whose deletion has only its key, goes.
abbrev news : List Event
news =
    puts (some (actor 2 7 1))
    ∷ puts (some (actor 2 8 1))
    ∷ puts none
    ∷ puts (some (actor 2 7 3))
    ∷ deletes none (key_of 2 8)
    ∷ []

cold_once : EachOnce (map_of cold.cache)
unfolding EachOnce map_of of_type slice_of count_id lookup
cold_once t id = omega arith

cached-watch_example :
    EachOnce (map_of (watch news cold).cache)
    × ((t id : ℕ)
        → cached t id (map_of (watch news cold).cache)
          ≡ latest t id news (cached t id (map_of cold.cache)))
cached-watch_example = cached-watch news cold cold_once

news_seen : find_id 7 (of_type 2 (map_of (watch news cold).cache)) ≡ some (actor 2 7 3)
unfolding watch handle handle_put handle_delete map_of put_cached put_config has_id replace_first
    drop_cached drop_first of_type slice_of find_id lookup insert offer deleted_key decoded or_zero
    delete_at delete_cached parse_key key_of decimal decimal_from trim_prefix after_prefix or_whole
    split onto_first two_parts both parse_uint in_bits parse_digits
news_seen = refl

abbrev start : Link
start = record { discovery = cold; group = new_discovery }

abbrev steps : List Step
steps =
    arrives (puts (some (actor 2 7 1)))
    ∷ takes
    ∷ arrives (puts (some (actor 2 8 1)))
    ∷ arrives (deletes (some (actor 2 7 1)) [])
    ∷ takes
    ∷ []

abbrev two : ℕ
two = 2

of_type_two : (id : ℕ) → 0 < id → (two ≡ two) × (0 < id) × (0 < 2)
of_type_two id pos = (refl, pos, omega arith)

steps-Room : Room (λ _. 2) steps start
unfolding Room Typed step take_notice handle handle_put handle_delete map_of put_cached offer
    deleted_key decoded or_zero delete_at delete_cached
steps-Room = (
  of_type_two 7 (omega arith),
  omega arith,
  (of_type_two 8 (omega arith), omega arith, (of_type_two 7 (omega arith), omega arith, _)),
)

start-InStep : InStep (λ _. 2) start
unfolding consume cached map_of of_type slice_of find_id lookup
start-InStep = record { once = cold_once; agrees = λ id. refl }

run-InStep_example : InStep (λ _. 2) (View.run steps start)
run-InStep_example = run-InStep (λ _. 2) steps start steps-Room start-InStep

parse_key-key_of_example :
    (parse_key (key_of 12 345) ≡ some (12, 345))
    × (parse_key_to_actor_type (slash ∷ servers ++ slash ∷ decimal 12) ≡ some 12)
parse_key-key_of_example = parse_key-key_of 12 345 (omega arith) (omega arith)

abbrev idle : Etcd
idle = record {
  cache = none;
  shared_lease_id = 0;
  registered_actors = none;
  calls = [];
  cancelled = false;
}

-- Actor 7 goes before the recreation loads the map.
abbrev ops : List Op
ops =
    registers (some 91) true (actor 2 7 1)
    ∷ registers (some 92) true (actor 2 8 1)
    ∷ recreates (some 93) true
    ∷ unregisters true (actor 2 7 1)
    ∷ recreates none true
    ∷ recreates none true
    ∷ recreates none true
    ∷ closes (λ _. true)
    ∷ []

idle-Backed : Backed idle
unfolding Backed held_from
idle-Backed c h = cc

idle-Live : Live idle (pending at_rest)
unfolding pending
idle-Live = Live-nothing idle

ops-Undisturbed : Undisturbed ops (idle, at_rest)
unfolding Undisturbed Apart is_registered pending apply_op register register_put ensure_lease
    create_shared_lease recreate_lease_and_reregister begin_recreation unregister call registered_of
    erase_registered erase_key same_key
ops-Undisturbed = (_, (_, (_, (refl, (_, (_, (_, (refl, _))))))))

run-Backed_example : Backed ((run ops (idle, at_rest)).0)
run-Backed_example = run-Backed ops (idle, at_rest) ops-Undisturbed idle-Backed idle-Live

-- Actor 7 is unregistered between the load and its put, and is in etcd again.
abbrev revived : List Op
revived =
    registers (some 91) true (actor 2 7 1)
    ∷ recreates (some 93) true
    ∷ recreates none true
    ∷ unregisters true (actor 2 7 1)
    ∷ recreates none true
    ∷ []

held_after_unregister : held_from (actor 2 7 1) false (run revived (idle, at_rest)).0.calls ≡ true
unfolding held_from holds_after run apply_op register register_put ensure_lease create_shared_lease
    recreate_lease_and_reregister begin_recreation unregister call registered_of same_key erase_key
    erase_registered uncache
held_after_unregister = refl

abbrev pair : List ActorConfig
pair = actor 2 7 1 ∷ actor 2 8 1 ∷ []

-- From 2^63 on an odd counter is a negative index.
poll_panics : (find_poll (2 ^ 63 + 1) pair).1 ≡ panics
unfolding find_poll
poll_panics = refl
