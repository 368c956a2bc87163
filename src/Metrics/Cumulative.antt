-- ===== src/Metrics/Cumulative.antt =====
-- zmetrics/metrics.go: the cumulative counts of a snapshot.
use zhenyi.Prelude.{
  ℕ, zero, suc, ◌+◌, ◌-◌, ◌%◌, ◌^◌, ◌<◌, ◌≤◌, ◌≡◌, refl, ap, ◌∙◌, Bool, true, List, [], ◌∷◌, length,
  get_or, set, replicate, length-set, length-replicate, All, ltb, leb, if◌then◌else◌, arith,
}
use zhenyi.Actor.Balance.{one_if}
use zhenyi.Metrics.Histogram.{
  Scale, Histogram, new_histogram, search_floats, observe, observe_all, accumulate, snapshot,
}

-- The sum of the first buckets, `i` and those before it.
unfoldable pub upto : ℕ → List ℕ → ℕ
upto i [] = 0
upto zero (b ∷ bs) = b
upto (suc i) (b ∷ bs) = b + upto i bs

get_or-accumulate :
    (acc i : ℕ) (bs : List ℕ)
    → i < length bs
    → get_or (accumulate acc bs) i 0 ≡ (acc + upto i bs) % 2 ^ 64
unfolding accumulate upto
get_or-accumulate acc i [] h = absurd (omega arith)
get_or-accumulate acc zero (b ∷ bs) h = refl
get_or-accumulate acc (suc i) (b ∷ bs) h =
    get_or-accumulate ((acc + b) % 2 ^ 64) i bs (omega arith) ∙ omega arith

upto-set :
    (i idx : ℕ) (bs : List ℕ)
    → idx < length bs
    → upto i (set bs idx ((get_or bs idx 0 + 1) % 2 ^ 64)) % 2 ^ 64
      ≡ (upto i bs + one_if (leb idx i)) % 2 ^ 64
unfolding upto one_if
upto-set i idx [] h = absurd (omega arith)
upto-set zero zero (b ∷ bs) h = ground arith
upto-set zero (suc idx) (b ∷ bs) h = ground arith
upto-set (suc i) zero (b ∷ bs) h = ground arith
upto-set (suc i) (suc idx) (b ∷ bs) h = ground (arith, upto-set i idx bs (omega arith))

upto-replicate : (n i : ℕ) → upto i (replicate n 0) ≡ 0
unfolding upto
upto-replicate zero i = refl
upto-replicate (suc n) zero = refl
upto-replicate (suc n) (suc i) = omega (arith, upto-replicate n i)

module _ (f : Scale) where
  open f use {F, le}

  -- Whether a value is at most the bound `i`; the bound after the last is infinite.
  unfoldable pub at_most : List F → ℕ → F → Bool
  at_most [] i v = true
  at_most (b ∷ bs) zero v = le v b
  at_most (b ∷ bs) (suc i) v = at_most bs i v

  unfoldable pub count_at_most : List F → ℕ → List F → ℕ
  count_at_most bounds i [] = 0
  count_at_most bounds i (v ∷ vs) = one_if (at_most bounds i v) + count_at_most bounds i vs

  unfoldable pub Ascending : List F → Type 0
  Ascending [] = Unit
  Ascending (b ∷ bs) = All (λ c. le b c ≡ true) bs × Ascending bs

  search_floats-low : (bs : List F) (v : F) → search_floats f bs v ≤ length bs
  unfolding search_floats
  search_floats-low [] v = omega arith
  search_floats-low (b ∷ bs) v = ground (arith, search_floats-low bs v)

  module _ (le_trans : (a b c : F) → le a b ≡ true → le b c ≡ true → le a c ≡ true) where
    above :
        (v b : F) (bs : List F) (i : ℕ)
        → le v b ≡ true
        → All (λ c. le b c ≡ true) bs
        → at_most bs i v ≡ true
    unfolding at_most
    above v b [] i e h = refl
    above v b (c ∷ bs) zero e (h, hs) = le_trans v b c e h
    above v b (c ∷ bs) (suc i) e (h, hs) = above v b bs i e hs

    leb-search_floats :
        (bs : List F) (i : ℕ) (v : F)
        → Ascending bs
        → i ≤ length bs
        → leb (search_floats f bs v) i ≡ at_most bs i v
    unfolding search_floats at_most Ascending
    leb-search_floats [] i v up h = ground arith
    leb-search_floats (b ∷ bs) zero v (up, rest) h = ground arith
    leb-search_floats (b ∷ bs) (suc i) v (up, rest) h =
        ground (arith, above v b bs i, leb-search_floats bs i v rest (omega arith))

    observe_all-upto :
        (i : ℕ) (vs : List F) (h : Histogram f)
        → Ascending h.bounds
        → length h.buckets ≡ length h.bounds + 1
        → i ≤ length h.bounds
        → (length (observe_all f vs h).buckets ≡ length h.bounds + 1)
          × (upto i (observe_all f vs h).buckets % 2 ^ 64
              ≡ (upto i h.buckets + count_at_most h.bounds i vs) % 2 ^ 64)
          × ((observe_all f vs h).count % 2 ^ 64 ≡ (h.count + length vs) % 2 ^ 64)
    unfolding observe_all observe count_at_most
    observe_all-upto i [] h up sized low = (sized, omega arith, omega arith)
    observe_all-upto i (v ∷ vs) h up sized low =
        let idx = search_floats f h.bounds v in
        let fits : idx ≤ length h.bounds = search_floats-low h.bounds v in
        let next = observe f v h in
        let kept : length next.buckets ≡ length h.bounds + 1 = length-set h.buckets _ _ ∙ sized in
        let (sized', sums, counts) = observe_all-upto i vs next up kept low in
        let last = length h.buckets - 1 in
        let clamped : (if ltb last idx then last else idx) ≡ idx = ground (arith, fits, sized) in
        let one : upto i next.buckets % 2 ^ 64 ≡ (upto i h.buckets + one_if (leb idx i)) % 2 ^ 64 =
          ap (λ j. upto i (set h.buckets j ((get_or h.buckets j 0 + 1) % 2 ^ 64)) % 2 ^ 64) clamped
          ∙ upto-set i idx h.buckets (omega (arith, fits, sized)) in
        let bit : one_if (leb idx i) ≡ one_if (at_most h.bounds i v) =
          ap one_if (leb-search_floats h.bounds i v up low) in
        (sized', omega (arith, sums, one, bit), omega (arith, counts))

    observe_all-bounds : (vs : List F) (h : Histogram f) → (observe_all f vs h).bounds ≡ h.bounds
    unfolding observe_all observe
    observe_all-bounds [] h = refl
    observe_all-bounds (v ∷ vs) h = observe_all-bounds vs (observe f v h)

    observe_all-count :
        (vs : List F) (h : Histogram f) → h.count < 2 ^ 64 → (observe_all f vs h).count < 2 ^ 64
    unfolding observe_all observe
    observe_all-count [] h low = low
    observe_all-count (v ∷ vs) h low = observe_all-count vs (observe f v h) (omega arith)

    -- For a transitive order and ascending bounds, the snapshot of a new histogram after any observations
    -- has at each bound, and after the last one, where all count, the number of the observations that are
    -- at most that bound, and as its count the number of them all, both modulo 2^64.
    pub snapshot-counts :
        (bounds vs : List F) (i : ℕ)
        → Ascending bounds
        → i ≤ length bounds
        → let s = snapshot f (observe_all f vs (new_histogram f bounds)) in
          (s.0 ≡ bounds)
          × (get_or s.1 i 0 ≡ count_at_most bounds i vs % 2 ^ 64)
          × (s.3 ≡ length vs % 2 ^ 64)
    unfolding snapshot new_histogram
    snapshot-counts bounds vs i up low =
        let h = new_histogram f bounds in
        let after = observe_all f vs h in
        let (sized, sums, counts) =
          observe_all-upto i vs h up (length-replicate (length bounds + 1) 0) low in
        let small = observe_all-count vs h (omega arith) in
        let zeros = upto-replicate (length bounds + 1) i in
        (
          observe_all-bounds vs h,
          get_or-accumulate 0 i after.buckets (omega (arith, sized, low))
              ∙ omega (arith, sums, zeros),
          omega (arith, counts, small),
        )
