-- ===== src/Prelude/Maps.antt =====
-- A Go map with numbers for keys, as an association list without a duplicate check: `insert`
-- replaces the first entry with the key, and `erase` drops every entry with it.
use Prim.Native.Nat.{ℕ}
use mathlib.Core.Path.{◌≡◌, refl}
use mathlib.Core.List.{List, [], ◌∷◌}
use mathlib.Core.Option.{Option, none, some}
use native.Mathlib.Omega.{arith}
use zhenyi.Prelude.Tests.{◌==◌, if◌then◌else◌}

unfoldable pub erase {ℓ} : {V : Type ℓ} → (key : ℕ) → (entries : List (ℕ × V)) → List (ℕ × V)
erase key [] = []
erase key ((other, value) ∷ entries) =
    let kept = erase key entries in if other == key then kept else (other, value) ∷ kept

unfoldable pub insert {ℓ} :
    {V : Type ℓ} → (key : ℕ) → (value : V) → (entries : List (ℕ × V)) → List (ℕ × V)
insert key value [] = (key, value) ∷ []
insert key value ((other, old) ∷ entries) =
    let later = insert key value entries in
    if other == key then (key, value) ∷ entries else (other, old) ∷ later

unfoldable pub lookup {ℓ} : {V : Type ℓ} → (key : ℕ) → (entries : List (ℕ × V)) → Option V
lookup key [] = none
lookup key ((other, value) ∷ entries) =
    let later = lookup key entries in if other == key then some value else later

pub lookup-erase {ℓ} :
    {V : Type ℓ} (k j : ℕ) (entries : List (ℕ × V))
    → lookup j (erase k entries) ≡ (if k == j then none else lookup j entries)
unfolding erase lookup
lookup-erase k j [] = ground arith
lookup-erase k j ((i, w) ∷ entries) = ground (arith, lookup-erase k j entries)

pub lookup-insert {ℓ} :
    {V : Type ℓ} (k j : ℕ) (v : V) (entries : List (ℕ × V))
    → lookup j (insert k v entries) ≡ (if k == j then some v else lookup j entries)
unfolding insert lookup
lookup-insert k j v [] = refl
lookup-insert k j v ((i, w) ∷ entries) = ground (arith, lookup-insert k j v entries)
