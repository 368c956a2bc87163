-- ===== src/Prelude/Digits.antt =====
-- The decimal digits of a number, as bytes: printed by the loop of zmetrics/metrics.go, and read.
use Prim.Native.Nat.{ℕ, zero, suc, ◌+◌, ◌-◌, ◌*◌, ◌/◌, ◌%◌, ◌<◌, ◌≤◌}
use mathlib.Core.Path.{◌≡◌, ap, ◌∙◌}
use mathlib.Core.Bool.{◌&&◌}
use mathlib.Core.List.{List, [], ◌∷◌}
use mathlib.Core.Option.{Option, none, some}
use native.Mathlib.Omega.{arith}
use zhenyi.Prelude.Tests.{ltb, leb, if◌then◌else◌, if_elim}
use zhenyi.Prelude.Lists.{length, All}

-- The rounds that are left suffice when there are more than the number.
unfoldable pub decimal_from : ℕ → ℕ → List ℕ → List ℕ
decimal_from zero n tail = tail
decimal_from (suc k) n tail =
    let more = decimal_from k (n / 10) ((48 + n % 10) ∷ tail) in
    if ltb n 10 then (48 + n) ∷ tail else more

unfoldable pub decimal : ℕ → List ℕ
decimal n = decimal_from (n + 1) n []

unfoldable pub parse_digits : ℕ → List ℕ → Option ℕ
parse_digits n [] = some n
parse_digits n (b ∷ s) =
    let rest = parse_digits (n * 10 + (b - 48)) s in if leb 48 b && leb b 57 then rest else none

parse_digits-decimal_from :
    (k n : ℕ) (tail : List ℕ) → n < k → parse_digits 0 (decimal_from k n tail) ≡ parse_digits n tail
unfolding decimal_from parse_digits
parse_digits-decimal_from zero n tail h = absurd (omega arith)
parse_digits-decimal_from (suc k) n tail h =
    if_elim (λ r. parse_digits 0 r ≡ parse_digits n tail) (ltb n 10)
      (λ e.
        let value : 0 * 10 + (48 + n - 48) ≡ n = omega arith in
        ground (arith, e, ap (λ v. parse_digits v tail) value))
      (λ e.
        let value : n / 10 * 10 + (48 + n % 10 - 48) ≡ n = omega arith in
        let low : n / 10 < k = ground (arith, e, h) in
        parse_digits-decimal_from k (n / 10) ((48 + n % 10) ∷ tail) low
        ∙ ground (arith, ap (λ v. parse_digits v tail) value))

decimal_from-long : (k n : ℕ) (tail : List ℕ) → length tail ≤ length (decimal_from k n tail)
unfolding decimal_from
decimal_from-long zero n tail = omega arith
decimal_from-long (suc k) n tail =
    ground (arith, decimal_from-long k (n / 10) ((48 + n % 10) ∷ tail))

pub decimal-long : (n : ℕ) → 0 < length (decimal n)
unfolding decimal decimal_from
decimal-long n = ground (arith, decimal_from-long n (n / 10) ((48 + n % 10) ∷ []))

decimal_from-digits :
    (k n : ℕ) (tail : List ℕ) → All (λ b. 48 ≤ b) tail → All (λ b. 48 ≤ b) (decimal_from k n tail)
unfolding decimal_from
decimal_from-digits zero n tail h = h
decimal_from-digits (suc k) n tail h =
    if_elim (All (λ b. 48 ≤ b)) (ltb n 10) (λ _. (omega arith, h))
      (λ _. decimal_from-digits k (n / 10) ((48 + n % 10) ∷ tail) (omega arith, h))

pub decimal-digits : (n : ℕ) → All (λ b. 48 ≤ b) (decimal n)
unfolding decimal
decimal-digits n = decimal_from-digits (n + 1) n [] _

pub parse_digits-decimal : (n : ℕ) → parse_digits 0 (decimal n) ≡ some n
unfolding decimal parse_digits
parse_digits-decimal n = parse_digits-decimal_from (n + 1) n [] (omega arith)

unfoldable pub tens : ℕ → ℕ
tens zero = 1
tens (suc d) = 10 * tens d

-- As many digits as the power of ten above the number has zeros.
decimal_from-short :
    (k d n : ℕ) (tail : List ℕ)
    → n < tens (suc d)
    → length (decimal_from k n tail) ≤ suc d + length tail
unfolding decimal_from tens
decimal_from-short zero d n tail h = omega arith
decimal_from-short (suc k) zero n tail h = ground (arith, h)
decimal_from-short (suc k) (suc d) n tail h =
    let low : n / 10 < tens (suc d) = omega (arith, h) in
    ground (arith, decimal_from-short k d (n / 10) ((48 + n % 10) ∷ tail) low)

pub decimal-short : (d n : ℕ) → n < tens (suc d) → length (decimal n) ≤ suc d
unfolding decimal
decimal-short d n h = omega (arith, decimal_from-short (n + 1) d n [] h)
