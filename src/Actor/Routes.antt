-- ===== src/Actor/Routes.antt =====
-- zactor/group.go and zactor/router.go: the route table from message ids to the actors of the
-- process. An actor is a number that stands for its identity, and the copy that a lookup returns is
-- the list itself; so are an absent and an empty list.
use zhenyi.Prelude.Maps.{lookup, insert, lookup-insert}
use zhenyi.Prelude.{
  ℕ, suc, ◌+◌, ◌≤◌, ◌≡◌, refl, sym, Bool, true, false, List, [], ◌∷◌, ◌++◌, Option, none, some,
  length, arith, ◌==◌, if◌then◌else◌, Bool-cases, Option-cases, ==_refl, ==_iff, ==_ne, inl, inr,
  subst,
}

abbrev pub RouteTable : Type 0
RouteTable = List (ℕ × List ℕ)

unfoldable pub contains : ℕ → List ℕ → Bool
contains x [] = false
contains x (y ∷ ys) = if y == x then true else contains x ys

-- An absent key reads as the nil slice.
unfoldable pub list_of : Option (List ℕ) → List ℕ
list_of none = []
list_of (some list) = list

unfoldable pub register_one : ℕ → ℕ → RouteTable → RouteTable
register_one actor msg_id table =
    let list = list_of (lookup msg_id table) in
    if contains actor list then table else insert msg_id (list ++ (actor ∷ [])) table

unfoldable pub register_each : ℕ → List ℕ → RouteTable → RouteTable
register_each actor [] table = table
register_each actor (msg_id ∷ ids) table = register_each actor ids (register_one actor msg_id table)

unfoldable pub register_routes : Option ℕ → List ℕ → RouteTable → RouteTable
register_routes none msg_ids table = table
register_routes (some actor) msg_ids table =
    if length msg_ids == 0 then table else register_each actor msg_ids table

unfoldable pub lookup_actors_by_msg_id : RouteTable → ℕ → List ℕ
lookup_actors_by_msg_id table msg_id = elim (lookup msg_id table) [
  | none ↦ []
  | some list ↦ if length list == 0 then [] else list
]

unfoldable pub first_target : List ℕ → Option ℕ
first_target [] = none
first_target (actor ∷ _) = some actor

-- `none` is the error that no actor is found.
unfoldable pub route_local : RouteTable → ℕ → Option ℕ
route_local table msg_id = first_target (lookup_actors_by_msg_id table msg_id)

-- A list with an actor at its end, unless it has it.
unfoldable pub with_actor : ℕ → List ℕ → List ℕ
with_actor actor list = if contains actor list then list else list ++ (actor ∷ [])

lookup_lem :
    (table : RouteTable) (m : ℕ) → lookup_actors_by_msg_id table m ≡ list_of (lookup m table)
unfolding lookup_actors_by_msg_id list_of
lookup_lem table m = elim (Option-cases (lookup m table)) [
  | inl e ↦ rw (e, lookup_actors_by_msg_id)
  | inr ([], e) ↦ rw (e, lookup_actors_by_msg_id)
  | inr (x ∷ xs, e) ↦
      rw (e, lookup_actors_by_msg_id, ==_ne (length (x ∷ xs)) 0 (λ q. absurd (omega arith)))
]

contains-append : (a : ℕ) (xs : List ℕ) → contains a (xs ++ (a ∷ [])) ≡ true
unfolding contains
contains-append a [] = rw (==_refl a)
contains-append a (x ∷ xs) = ground (arith, contains-append a xs)

with_actor_again : (a : ℕ) (xs : List ℕ) → with_actor a (with_actor a xs) ≡ with_actor a xs
unfolding with_actor
with_actor_again a xs = elim (Bool-cases (contains a xs)) [
  | inl e ↦ rw (e, e)
  | inr e ↦ rw (e, contains-append a xs)
]

register_one-lookup_same :
    (a m : ℕ) (table : RouteTable)
    → list_of (lookup m (register_one a m table)) ≡ with_actor a (list_of (lookup m table))
unfolding register_one with_actor list_of
register_one-lookup_same a m table = elim (Bool-cases (contains a (list_of (lookup m table)))) [
  | inl e ↦ rw e
  | inr e ↦
      rw (e, lookup-insert m m (list_of (lookup m table) ++ (a ∷ [])) table, ==_refl m, list_of)
]

register_one-lookup_other :
    (a m j : ℕ) (table : RouteTable)
    → (m == j) ≡ false
    → list_of (lookup j (register_one a m table)) ≡ list_of (lookup j table)
unfolding register_one
register_one-lookup_other a m j table ne =
    elim (Bool-cases (contains a (list_of (lookup m table)))) [
      | inl e ↦ rw e
      | inr e ↦ rw (e, lookup-insert m j (list_of (lookup m table) ++ (a ∷ [])) table, ne)
    ]

register_one-lookup :
    (a m j : ℕ) (table : RouteTable)
    → list_of (lookup j (register_one a m table))
      ≡ (if m == j then with_actor a (list_of (lookup j table)) else list_of (lookup j table))
register_one-lookup a m j table = elim (Bool-cases (m == j)) [
  | inl e ↦ rw (e, sym ((==_iff m j).0 e)) (register_one-lookup_same a m table)
  | inr e ↦ rw e (register_one-lookup_other a m j table e)
]

register_each-lookup :
    (a : ℕ) (ids : List ℕ) (j : ℕ) (table : RouteTable)
    → list_of (lookup j (register_each a ids table)) ≡ (
        if contains j ids
        then with_actor a (list_of (lookup j table))
        else list_of (lookup j table))
unfolding register_each contains
register_each-lookup a [] j table = refl
register_each-lookup a (m ∷ ids) j table =
    rw (register_each-lookup a ids j (register_one a m table), register_one-lookup a m j table)
      (elim (Bool-cases (m == j)) [
        | inl e ↦ elim (Bool-cases (contains j ids)) [
          | inl f ↦ rw (e, f, with_actor_again a (list_of (lookup j table)))
          | inr f ↦ rw (e, f)
        ]
        | inr e ↦ rw e
      ])

-- Registering an actor for a list of message ids, which may repeat, puts it at the end of the list
-- of each of these ids, unless the actor is in that list already, and changes no other list.
pub register_routes-lookup :
    (a : ℕ) (ids : List ℕ) (m : ℕ) (table : RouteTable)
    → lookup_actors_by_msg_id (register_routes (some a) ids table) m ≡ (
        if contains m ids
        then with_actor a (lookup_actors_by_msg_id table m)
        else lookup_actors_by_msg_id table m)
unfolding register_routes contains
register_routes-lookup a [] m table = refl
register_routes-lookup a (i ∷ ids) m table =
    rw
      (
        ==_ne (length (i ∷ ids)) 0 (λ e. absurd (omega arith)),
        lookup_lem (register_each a (i ∷ ids) table) m,
        lookup_lem table m,
      )
      (register_each-lookup a (i ∷ ids) m table)

-- The number of times that an actor is in a list.
unfoldable pub times : ℕ → List ℕ → ℕ
times a [] = 0
times a (x ∷ xs) = let rest = times a xs in if x == a then suc rest else rest

-- No actor is in a list twice.
abbrev pub NoTwice : RouteTable → Type 0
NoTwice table = (m a : ℕ) → times a (lookup_actors_by_msg_id table m) ≤ 1

times-append : (a b : ℕ) (xs : List ℕ) → times a (xs ++ (b ∷ [])) ≡ times a xs + times a (b ∷ [])
unfolding times
times-append a b [] = ground arith
times-append a b (x ∷ xs) = ground (arith, times-append a b xs)

times_absent : (a : ℕ) (xs : List ℕ) → contains a xs ≡ false → times a xs ≡ 0
unfolding times contains
times_absent a [] e = refl
times_absent a (x ∷ xs) e = ground (arith, times_absent a xs)

with_actor-times :
    (a b : ℕ) (xs : List ℕ) → times a xs ≤ 1 → times b xs ≤ 1 → times a (with_actor b xs) ≤ 1
unfolding with_actor times
with_actor-times a b xs h k = elim (Bool-cases (contains b xs)) [
  | inl e ↦ rw e h
  | inr e ↦
      rw (e, times-append a b xs)
        (elim (Bool-cases (b == a)) [
          | inl f ↦
              let absent = subst (λ c. times c xs ≡ 0) ((==_iff b a).0 f) (times_absent b xs e) in
              rw (f, absent) (omega arith)
          | inr f ↦ rw f (omega arith)
        ])
]

-- Registration keeps every list free of repeated actors.
pub register_routes-NoTwice :
    (a : ℕ) (ids : List ℕ) (table : RouteTable)
    → NoTwice table
    → NoTwice (register_routes (some a) ids table)
register_routes-NoTwice a ids table h m b =
    rw (register_routes-lookup a ids m table) (elim (Bool-cases (contains m ids)) [
      | inl e ↦ rw e (with_actor-times b a (lookup_actors_by_msg_id table m) (h m b) (h m a))
      | inr e ↦ rw e (h m b)
    ])

first_target-with_actor :
    (a target : ℕ) (xs : List ℕ)
    → first_target xs ≡ some target
    → first_target (with_actor a xs) ≡ some target
unfolding first_target with_actor
first_target-with_actor a target [] e = cc
first_target-with_actor a target (x ∷ xs) e = elim (Bool-cases (contains a (x ∷ xs))) [
  | inl f ↦ rw f e
  | inr f ↦ rw f e
]

-- Once a message id has a local target, no later registration changes it.
pub route_local_stable :
    (a target m : ℕ) (ids : List ℕ) (table : RouteTable)
    → route_local table m ≡ some target
    → route_local (register_routes (some a) ids table) m ≡ some target
unfolding route_local
route_local_stable a target m ids table e =
    rw (register_routes-lookup a ids m table) (elim (Bool-cases (contains m ids)) [
      | inl f ↦ rw f (first_target-with_actor a target (lookup_actors_by_msg_id table m) e)
      | inr f ↦ rw f e
    ])
