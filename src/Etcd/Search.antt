-- ===== src/Etcd/Search.antt =====
-- zdiscovery/etcd.go: the searches by a key. A Go map has no order, and here its entries are in that of the
-- list; the choice of `zrand.RandomList` is a parameter.
use zhenyi.Prelude.{
  ℕ, Bool, true, false, ◌&&◌, List, [], ◌∷◌, ◌++◌, Option, none, some, length, ◌==◌, if◌then◌else◌,
}
use zhenyi.Model.{ActorConfig}
use zhenyi.Etcd.Cache.{Cache, map_of, find_actors_by_type, Poll, find_poll}
use zhenyi.Etcd.Keys.{
  slash, servers, key_of, trim_prefix, split, parse_uint, parse_key_to_actor_type,
}

unfoldable pub same_bytes : List ℕ → List ℕ → Bool
same_bytes [] [] = true
same_bytes [] (b ∷ bs) = false
same_bytes (a ∷ more) [] = false
same_bytes (a ∷ more) (b ∷ bs) = a == b && same_bytes more bs

-- The entries of `ActorServerRegister`, each with its key.
abbrev pub Entries : Type 0
Entries = List (List ℕ × ActorConfig)

unfoldable pub entries_of : ℕ → List ActorConfig → Entries
entries_of actor_type [] = []
entries_of actor_type (c ∷ actors) = (key_of actor_type c.id, c) ∷ entries_of actor_type actors

unfoldable pub own_entries : List ActorConfig → Entries
own_entries [] = []
own_entries (c ∷ actors) = (key_of c.actor_type c.id, c) ∷ own_entries actors

unfoldable pub all_entries : Cache → Entries
all_entries [] = []
all_entries ((actor_type, actors) ∷ m) = entries_of actor_type actors ++ all_entries m

unfoldable pub entries_at : Option ℕ → Option Cache → Entries
entries_at none cache = []
entries_at (some actor_type) cache = own_entries (find_actors_by_type actor_type cache)

unfoldable pub in_parts : List (List ℕ) → Option Cache → Entries
in_parts [] cache = []
in_parts (p ∷ []) cache = if same_bytes p servers then all_entries (map_of cache) else []
in_parts (p ∷ q ∷ parts) cache =
    if same_bytes p servers then entries_at (parse_uint 32 q) cache else []

unfoldable pub find_all_by_prefix : List ℕ → Option Cache → Entries
find_all_by_prefix key cache = in_parts (split (trim_prefix (slash ∷ []) key)) cache

unfoldable pub configs : Entries → List ActorConfig
configs [] = []
configs ((key, c) ∷ entries) = c ∷ configs entries

unfoldable pub candidates_at : Option ℕ → List ℕ → Option Cache → List ActorConfig
candidates_at none key cache = configs (find_all_by_prefix key cache)
candidates_at (some actor_type) key cache = find_actors_by_type actor_type cache

-- What `FindRandom` and `FindPoll` choose from.
unfoldable pub candidates : List ℕ → Option Cache → List ActorConfig
candidates key cache = candidates_at (parse_key_to_actor_type key) key cache

unfoldable pub find_random :
    (List ActorConfig → ActorConfig) → List ℕ → Option Cache → Option ActorConfig
find_random random_list key cache =
    let actors = candidates key cache in
    if length actors == 0 then none else some (random_list actors)

-- The counter of a key, and a new value of it; a key without one has 0.
unfoldable pub counter_of : List ℕ → List (List ℕ × ℕ) → ℕ
counter_of key [] = 0
counter_of key ((k, n) ∷ counters) =
    let rest = counter_of key counters in if same_bytes k key then n else rest

unfoldable pub set_counter : List ℕ → ℕ → List (List ℕ × ℕ) → List (List ℕ × ℕ)
set_counter key v [] = (key, v) ∷ []
set_counter key v ((k, n) ∷ counters) =
    let rest = set_counter key v counters in
    if same_bytes k key then (k, v) ∷ counters else (k, n) ∷ rest

unfoldable pub poll : List ℕ → List (List ℕ × ℕ) → Option Cache → List (List ℕ × ℕ) × Poll
poll key counters cache =
    let actors = candidates key cache in
    let next = find_poll (counter_of key counters) actors in
    if length actors == 0 then (counters, next.1) else (set_counter key next.0 counters, next.1)
