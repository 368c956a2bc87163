-- ===== src/Gate/Attempts.antt =====
-- `routeToRemoteActor`: the order in which the candidates are tried.
use zhenyi.Prelude.{ℕ, ◌+◌, ◌<◌, ◌≡◌, sym, inl, inr, ltb, ◌==◌, Bool-cases, ==_iff, arith}
use zhenyi.Gate.Remote.{ℤ, pos, negsuc, pick_index, attempt}

-- With a preferred index in range, every candidate is that of exactly one attempt, and that attempt
-- comes within as many as there are candidates.
pub attempt_covers :
    (count pick j : ℕ)
    → pick < count
    → j < count
    → (i : ℕ) × (i < count) × (attempt pick i ≡ j) × ((k : ℕ) → attempt pick k ≡ j → k ≡ i)
unfolding attempt
attempt_covers count pick j p q = elim (Bool-cases (j == pick)) [
  | inl e ↦ let f = (==_iff j pick).0 e in (0, omega arith, sym f, λ k h. ground arith)
  | inr e ↦ elim (Bool-cases (ltb j pick)) [
    | inl f ↦ (j + 1, ground arith, ground arith, λ k h. ground arith)
    | inr f ↦ (j, ground arith, ground arith, λ k h. ground arith)
  ]
]

pub pick_index_lem : (picked : ℤ) (count : ℕ) → 0 < count → pick_index picked count < count
unfolding pick_index
pick_index_lem (negsuc n) count h = h
pick_index_lem (pos n) count h = ground arith

pub attempt_in : (count pick i : ℕ) → pick < count → i < count → attempt pick i < count
unfolding attempt
attempt_in count pick i p q = ground arith
