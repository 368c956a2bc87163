-- ===== src/Etcd/Keys.antt =====
-- zdiscovery/etcd.go: the keys "/servers/{actorType}/{actorId}", as bytes. What is used of `strings` and
-- `strconv` is written out.
use zhenyi.Prelude.{ℕ, ◌^◌, List, [], ◌∷◌, ◌++◌, Option, none, some, ltb, ◌==◌, if◌then◌else◌}
use zhenyi.Prelude.Digits.{decimal, parse_digits}

-- "/" and "servers".
abbrev pub slash : ℕ
slash = 47

abbrev pub servers : List ℕ
servers = 115 ∷ 101 ∷ 114 ∷ 118 ∷ 101 ∷ 114 ∷ 115 ∷ []

unfoldable pub key_of : (actor_type id : ℕ) → List ℕ
key_of actor_type id = slash ∷ servers ++ slash ∷ decimal actor_type ++ slash ∷ decimal id

-- What follows a prefix.
unfoldable pub after_prefix : List ℕ → List ℕ → Option (List ℕ)
after_prefix [] s = some s
after_prefix (p ∷ ps) [] = none
after_prefix (p ∷ ps) (b ∷ s) = let rest = after_prefix ps s in if b == p then rest else none

unfoldable pub or_whole : List ℕ → Option (List ℕ) → List ℕ
or_whole s none = s
or_whole s (some rest) = rest

unfoldable pub trim_prefix : List ℕ → List ℕ → List ℕ
trim_prefix p s = or_whole s (after_prefix p s)

unfoldable pub onto_first : ℕ → List (List ℕ) → List (List ℕ)
onto_first b [] = []
onto_first b (part ∷ parts) = (b ∷ part) ∷ parts

-- `strings.Split` at the slashes.
unfoldable pub split : List ℕ → List (List ℕ)
split [] = [] ∷ []
split (b ∷ s) = let parts = split s in if b == slash then [] ∷ parts else onto_first b parts

-- What follows the last slash.
unfoldable pub after_last : List ℕ → Option (List ℕ)
after_last [] = none
after_last (b ∷ s) =
    let here = if b == slash then some s else none in
    elim (after_last s) [ none ↦ here | some rest ↦ some rest ]

unfoldable pub in_bits : ℕ → Option ℕ → Option ℕ
in_bits w none = none
in_bits w (some n) = if ltb n (2 ^ w) then some n else none

-- `strconv.ParseUint` in base 10.
unfoldable pub parse_uint : ℕ → List ℕ → Option ℕ
parse_uint w [] = none
parse_uint w (b ∷ s) = in_bits w (parse_digits 0 (b ∷ s))

unfoldable pub type_after : Option (List ℕ) → Option ℕ
type_after none = none
type_after (some part) = parse_uint 32 part

unfoldable pub type_in : List ℕ → Option (List ℕ) → Option ℕ
type_in key none = none
type_in key (some _) = type_after (after_last key)

unfoldable pub parse_key_to_actor_type : List ℕ → Option ℕ
parse_key_to_actor_type [] = none
parse_key_to_actor_type (b ∷ s) =
    let key = trim_prefix (slash ∷ []) (b ∷ s) in
    type_in key (after_prefix (servers ++ slash ∷ []) key)

unfoldable pub both : Option ℕ → Option ℕ → Option (ℕ × ℕ)
both none id = none
both (some actor_type) none = none
both (some actor_type) (some id) = some (actor_type, id)

-- The type and the id in the first two parts.
unfoldable pub two_parts : List (List ℕ) → Option (ℕ × ℕ)
two_parts [] = none
two_parts (p ∷ []) = none
two_parts (p ∷ q ∷ parts) = both (parse_uint 32 p) (parse_uint 64 q)

-- What a deletion takes from the key when it has no value.
unfoldable pub parse_key : List ℕ → Option (ℕ × ℕ)
parse_key key = two_parts (split (trim_prefix (slash ∷ servers ++ slash ∷ []) key))
