-- ===== src/Aoi/Cells.antt =====
-- zaoi/staticaoi.go: which cells the loops over nine cells visit.
use zhenyi.Prelude.{
  ℕ, zero, suc, ◌+◌, ◌-◌, ◌*◌, ◌/◌, ◌%◌, ◌≤◌, ◌<◌, ◌≡◌, refl, ap, sym, ◌∙◌, Bool, true, false, ◌&&◌,
  List, [], ◌∷◌, ◌++◌, All, ltb, leb, ◌==◌, if◌then◌else◌, arith, ==_iff,
}
use native.Mathlib.Nat.{
  mod-lt, div-add-mod', div-lt_iff_lt-mul, mul-add-div_right, mul_comm, mul-add-mod_self_left,
  div-eq_of_lt, mod-eq_of_lt,
}
use zhenyi.Actor.Routes.{times}
use zhenyi.Actor.Balance.{one_if}
use zhenyi.Aoi.Space.{nine_grid_range, from, span, row, rows, nine_cells}

-- Two cells touch, or are the same.
unfoldable pub adjacent : ℕ → ℕ → ℕ → Bool
adjacent grid_x g h =
    (leb (g % grid_x) (h % grid_x + 1) && leb (h % grid_x) (g % grid_x + 1))
    && (leb (g / grid_x) (h / grid_x + 1) && leb (h / grid_x) (g / grid_x + 1))

pub times-append : (p : ℕ) (xs ys : List ℕ) → times p (xs ++ ys) ≡ times p xs + times p ys
unfolding times
times-append p [] ys = omega arith
times-append p (x ∷ xs) ys = ground (arith, times-append p xs ys)

times-from : (n lo p : ℕ) → times p (from n lo) ≡ one_if (leb lo p && ltb p (lo + n))
unfolding times from one_if
times-from zero lo p = ground arith
times-from (suc n) lo p = ground (arith, times-from n (lo + 1) p)

times-span : (lo hi p : ℕ) → times p (span lo hi) ≡ one_if (leb lo p && leb p hi)
unfolding span one_if
times-span lo hi p = times-from (hi + 1 - lo) lo p ∙ ground arith

-- Columns below `grid_x` tell the cells of a row apart from those of others.
quotient : (k y x : ℕ) → x < k → ((y * k + x) / k ≡ y) × ((y * k + x) % k ≡ x)
quotient k y x h = (
  mul-add-div_right (omega arith) y x ∙ omega (arith, div-eq_of_lt h),
  ap (λ n. (n + x) % k) (mul_comm y k) ∙ (mul-add-mod_self_left k y x ∙ mod-eq_of_lt h),
)

bool_eq : (a b : Bool) → (a ≡ true → b ≡ true) → (b ≡ true → a ≡ true) → a ≡ b
bool_eq true b f g = sym (f refl)
bool_eq false true f g = g refl
bool_eq false false f g = refl

same_cell : (k y x p : ℕ) → x < k → (y * k + x == p) ≡ (y == p / k && x == p % k)
same_cell k y x p h =
    bool_eq (y * k + x == p) (y == p / k && x == p % k)
      (λ e.
        let same = (==_iff (y * k + x) p).0 e in
        let (q, r) = quotient k y x h in
        let q' : y ≡ p / k = sym q ∙ ap (λ n. n / k) same in
        let r' : x ≡ p % k = sym r ∙ ap (λ n. n % k) same in ground (arith, q', r'))
      (λ e.
        let (q, r) = both (y == p / k) (x == p % k) e in
        let q' = (==_iff y (p / k)).0 q in
        let r' = (==_iff x (p % k)).0 r in
        (==_iff (y * k + x) p).1 (omega (arith, ap (λ n. n * k) q', r', div-add-mod' p k)))
  where
    both : (a b : Bool) → (a && b) ≡ true → (a ≡ true) × (b ≡ true)
    both a b e = ground arith

times-row :
    (k y p : ℕ) (xs : List ℕ)
    → All (λ x. x < k) xs
    → times p (row (y * k) xs) ≡ (if y == p / k then times (p % k) xs else 0)
unfolding times row
times-row k y p [] h = ground arith
times-row k y p (x ∷ xs) (h, hs) = ground (arith, times-row k y p xs hs, same_cell k y x p h)

add_row : (t : Bool) (a b : ℕ) → (if t then b else 0) + a * b ≡ (if t then suc a else a) * b
add_row true a b = omega arith
add_row false a b = omega arith

times-rows :
    (k p : ℕ) (ys xs : List ℕ)
    → All (λ x. x < k) xs
    → times p (rows k ys xs) ≡ times (p / k) ys * times (p % k) xs
unfolding times rows
times-rows k p [] xs h = omega arith
times-rows k p (y ∷ ys) xs h =
    times-append p (row (y * k) xs) (rows k ys xs)
    ∙ (ap (λ n. n + times p (rows k ys xs)) (times-row k y p xs h)
        ∙ (ap (λ n. (if y == p / k then times (p % k) xs else 0) + n) (times-rows k p ys xs h)
            ∙ add_row (y == p / k) (times (p / k) ys) (times (p % k) xs)))

from-below : (k n lo : ℕ) → lo + n ≤ k → All (λ x. x < k) (from n lo)
unfolding from
from-below k zero lo h = _
from-below k (suc n) lo h = (omega arith, from-below k n (lo + 1) (omega arith))

span-below : (k lo hi : ℕ) → lo ≤ k → hi + 1 ≤ k → All (λ x. x < k) (span lo hi)
unfolding span
span-below k lo hi h h' = from-below k (hi + 1 - lo) lo (omega arith)

-- One axis of the nine cells.
near_axis :
    (k c p : ℕ)
    → p < k
    → (leb (c - 1) p && leb p (if leb k (c + 1) then k - 1 else c + 1))
      ≡ (leb p (c + 1) && leb c (p + 1))
near_axis k c p h = ground arith

one_if-and : (a b : Bool) → one_if a * one_if b ≡ one_if (b && a)
unfolding one_if
one_if-and true true = refl
one_if-and true false = refl
one_if-and false true = refl
one_if-and false false = refl

-- The loops visit each cell that touches the middle one once, and no other.
pub times-nine_cells :
    (grid_x grid_y g p : ℕ)
    → 0 < grid_x
    → g < grid_x * grid_y
    → p < grid_x * grid_y
    → times p (nine_cells grid_x grid_y g) ≡ one_if (adjacent grid_x p g)
unfolding nine_cells nine_grid_range adjacent
times-nine_cells gx gy g p pos hg hp =
    let low_g : g % gx < gx = mod-lt g pos in
    let low_p : p % gx < gx = mod-lt p pos in
    let row_g : g / gx < gy = (div-lt_iff_lt-mul pos).1 (omega (arith, hg, mul_comm gx gy)) in
    let row_p : p / gx < gy = (div-lt_iff_lt-mul pos).1 (omega (arith, hp, mul_comm gx gy)) in
    let end_x = if leb gx (g % gx + 1) then gx - 1 else g % gx + 1 in
    let end_y = if leb gy (g / gx + 1) then gy - 1 else g / gx + 1 in
    let below : All (λ x. x < gx) (span (g % gx - 1) end_x) =
      span-below gx (g % gx - 1) end_x (omega arith) (ground arith) in
    times-rows gx p (span (g / gx - 1) end_y) (span (g % gx - 1) end_x) below
    ∙ (ap (λ n. n * times (p % gx) (span (g % gx - 1) end_x))
          (times-span (g / gx - 1) end_y (p / gx)
            ∙ ap one_if (near_axis gy (g / gx) (p / gx) row_p))
        ∙ (ap (λ n. one_if (leb (p / gx) (g / gx + 1) && leb (g / gx) (p / gx + 1)) * n)
              (times-span (g % gx - 1) end_x (p % gx)
                ∙ ap one_if (near_axis gx (g % gx) (p % gx) low_p))
            ∙ one_if-and (leb (p / gx) (g / gx + 1) && leb (g / gx) (p / gx + 1))
                (leb (p % gx) (g % gx + 1) && leb (g % gx) (p % gx + 1))))
