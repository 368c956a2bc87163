-- ===== src/Etcd/Once.antt =====
-- zdiscovery/etcd.go: the actors of a type have different ids, and what is found by an id.
use zhenyi.Prelude.{
  ℕ, ◌+◌, ◌≤◌, ◌≡◌, refl, true, false, List, [], ◌∷◌, ◌++◌, Option, none, some, ◌==◌, if◌then◌else◌,
  arith, if_elim,
}
use zhenyi.Model.{ActorConfig}
use zhenyi.Etcd.Cache.{Cache, of_type, has_id, replace_first, drop_first, put_config}

unfoldable pub count_id : ℕ → List ActorConfig → ℕ
count_id id [] = 0
count_id id (a ∷ actors) = let rest = count_id id actors in if a.id == id then rest + 1 else rest

unfoldable pub find_id : ℕ → List ActorConfig → Option ActorConfig
find_id id [] = none
find_id id (a ∷ actors) = let rest = find_id id actors in if a.id == id then some a else rest

-- Each id is once among the actors of each type at most.
unfoldable pub EachOnce : Cache → Type 0
EachOnce m = (actor_type id : ℕ) → count_id id (of_type actor_type m) ≤ 1

-- The configuration of a type and an id.
unfoldable pub cached : (actor_type id : ℕ) → Cache → Option ActorConfig
cached actor_type id m = find_id id (of_type actor_type m)

has_id-count :
    (id : ℕ) (actors : List ActorConfig) → has_id id actors ≡ false → count_id id actors ≡ 0
unfolding has_id count_id
has_id-count id [] h = refl
has_id-count id (a ∷ actors) h = ground (arith, h, has_id-count id actors)

find_id-absent :
    (id : ℕ) (actors : List ActorConfig) → count_id id actors ≡ 0 → find_id id actors ≡ none
unfolding find_id count_id
find_id-absent id [] h = refl
find_id-absent id (a ∷ actors) h = ground (arith, h, find_id-absent id actors)

find_id-replace_first :
    (id : ℕ) (c : ActorConfig) (actors : List ActorConfig)
    → has_id c.id actors ≡ true
    → find_id id (replace_first c actors) ≡ (if c.id == id then some c else find_id id actors)
unfolding find_id replace_first has_id
find_id-replace_first id c [] h = ground (arith, h)
find_id-replace_first id c (a ∷ actors) h = ground (arith, h, find_id-replace_first id c actors)

find_id-append :
    (id : ℕ) (c : ActorConfig) (actors : List ActorConfig)
    → has_id c.id actors ≡ false
    → find_id id (actors ++ (c ∷ [])) ≡ (if c.id == id then some c else find_id id actors)
unfolding find_id has_id
find_id-append id c [] h = refl
find_id-append id c (a ∷ actors) h = ground (arith, h, find_id-append id c actors)

pub find_id-put_config :
    (id : ℕ) (c : ActorConfig) (actors : List ActorConfig)
    → find_id id (put_config c actors) ≡ (if c.id == id then some c else find_id id actors)
unfolding put_config
find_id-put_config id c actors =
    if_elim (λ r. find_id id r ≡ (if c.id == id then some c else find_id id actors))
      (has_id c.id actors) (find_id-replace_first id c actors) (find_id-append id c actors)

pub find_id-drop_first :
    (id j : ℕ) (actors : List ActorConfig)
    → count_id j actors ≤ 1
    → find_id id (drop_first j actors) ≡ (if j == id then none else find_id id actors)
unfolding find_id drop_first count_id
find_id-drop_first id j [] h = ground arith
find_id-drop_first id j (a ∷ actors) h =
    ground (arith, h, find_id-drop_first id j actors, find_id-absent id actors)

count_id-replace_first :
    (id : ℕ) (c : ActorConfig) (actors : List ActorConfig)
    → count_id id (replace_first c actors) ≡ count_id id actors
unfolding count_id replace_first
count_id-replace_first id c [] = refl
count_id-replace_first id c (a ∷ actors) = ground (arith, count_id-replace_first id c actors)

count_id-append :
    (id : ℕ) (c : ActorConfig) (actors : List ActorConfig)
    → count_id id (actors ++ (c ∷ []))
      ≡ (if c.id == id then count_id id actors + 1 else count_id id actors)
unfolding count_id
count_id-append id c [] = refl
count_id-append id c (a ∷ actors) = ground (arith, count_id-append id c actors)

pub count_id-put_config :
    (id : ℕ) (c : ActorConfig) (actors : List ActorConfig)
    → count_id id actors ≤ 1
    → count_id id (put_config c actors) ≤ 1
unfolding put_config
count_id-put_config id c actors h =
    if_elim (λ r. count_id id r ≤ 1) (has_id c.id actors)
      (λ _. omega (arith, count_id-replace_first id c actors))
      (λ e. ground (arith, count_id-append id c actors, has_id-count c.id actors e))

pub count_id-drop_first :
    (id j : ℕ) (actors : List ActorConfig) → count_id id (drop_first j actors) ≤ count_id id actors
unfolding count_id drop_first
count_id-drop_first id j [] = omega arith
count_id-drop_first id j (a ∷ actors) = ground (arith, count_id-drop_first id j actors)

pub find_id-missing :
    (id : ℕ) (actors : List ActorConfig) → has_id id actors ≡ false → find_id id actors ≡ none
find_id-missing id actors h = find_id-absent id actors (has_id-count id actors h)
