-- ===== src/Etcd/Cache.antt =====
-- zdiscovery/etcd.go: the cache of the actors by their type, and the choices among them. What the
-- map is replaced by is a new copy, so a slice that a reader has does not change. `none` for a pointer
-- is nil. The lease, the registered actors and the calls of the client stand in Etcd/Registry.
use zhenyi.Prelude.{
  ℕ, ◌+◌, ◌-◌, ◌%◌, ◌^◌, Bool, true, false, List, [], ◌∷◌, ◌++◌, Option, none, some, length,
  get_elem?, ltb, ◌==◌, if◌then◌else◌,
}
use zhenyi.Prelude.Maps.{lookup, insert}
use zhenyi.Model.{ActorConfig}

abbrev pub Cache : Type 0
Cache = List (ℕ × List ActorConfig)

unfoldable pub slice_of : Option (List ActorConfig) → List ActorConfig
slice_of none = []
slice_of (some actors) = actors

unfoldable pub map_of : Option Cache → Cache
map_of none = []
map_of (some m) = m

unfoldable pub of_type : ℕ → Cache → List ActorConfig
of_type actor_type m = slice_of (lookup actor_type m)

-- `findActorsByType`
unfoldable pub find_actors_by_type : ℕ → Option Cache → List ActorConfig
find_actors_by_type actor_type cache = of_type actor_type (map_of cache)

unfoldable pub has_id : ℕ → List ActorConfig → Bool
has_id id [] = false
has_id id (a ∷ actors) = let rest = has_id id actors in if a.id == id then true else rest

-- The loops that replace or take out the first one with the id.
unfoldable pub replace_first : ActorConfig → List ActorConfig → List ActorConfig
replace_first c [] = []
replace_first c (a ∷ actors) =
    let rest = replace_first c actors in if a.id == c.id then c ∷ actors else a ∷ rest

unfoldable pub drop_first : ℕ → List ActorConfig → List ActorConfig
drop_first id [] = []
drop_first id (a ∷ actors) =
    let rest = drop_first id actors in if a.id == id then actors else a ∷ rest

-- What a put makes of the actors of its type.
unfoldable pub put_config : ActorConfig → List ActorConfig → List ActorConfig
put_config c actors = if has_id c.id actors then replace_first c actors else actors ++ (c ∷ [])

unfoldable pub put_cached : ActorConfig → Cache → Cache
put_cached c m = insert c.actor_type (put_config c (of_type c.actor_type m)) m

unfoldable pub drop_cached : (actor_type id : ℕ) → Cache → Cache
drop_cached actor_type id m =
    if has_id id (of_type actor_type m)
    then insert actor_type (drop_first id (of_type actor_type m)) m
    else m

unfoldable pub append_cached : ActorConfig → Cache → Cache
append_cached c m = insert c.actor_type (of_type c.actor_type m ++ (c ∷ [])) m

-- `FindMod`, where `none` is the empty configuration.
unfoldable pub find_mod : (actor_type user_id : ℕ) → Option Cache → Option ActorConfig
find_mod actor_type user_id cache =
    let actors = find_actors_by_type actor_type cache in
    if length actors == 0 then none else get_elem? actors (user_id % length actors)

pub data Poll : Type 0 where
  nothing panics : Poll
  polled : ActorConfig → Poll

unfoldable pub picked_at : Option ActorConfig → Poll
picked_at none = panics
picked_at (some c) = polled c

-- `FindPoll` of a type, with its counter before and after: `int` of a counter of 64 bits that is
-- 2^63 or more is negative, and so is its remainder, unless that is 0.
unfoldable pub find_poll : ℕ → List ActorConfig → ℕ × Poll
find_poll counter actors =
    let next = (counter + 1) % 2 ^ 64 in
    let n = (next + 2 ^ 64 - 1) % 2 ^ 64 in
    if length actors == 0
    then (counter, nothing)
    else if ltb n (2 ^ 63)
    then (next, picked_at (get_elem? actors (n % length actors)))
    else if (2 ^ 64 - n) % length actors == 0
    then (next, picked_at (get_elem? actors 0))
    else (next, panics)
