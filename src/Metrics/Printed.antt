-- ===== src/Metrics/Printed.antt =====
-- zmetrics/metrics.go: the text of an int64 fits its buffer and is the number.
use zhenyi.Prelude.{
  ℕ, ◌-◌, ◌%◌, ◌^◌, ◌<◌, ◌≤◌, ◌≡◌, ◌≢◌, ap, List, [], ◌∷◌, Option, none, some, length, ltb, lt→ltb,
  ge_of_ltb, ltb→lt, ◌==◌, if◌then◌else◌, if_elim, arith,
}
use zhenyi.Prelude.Digits.{
  decimal, parse_digits, parse_digits-decimal, decimal-short, tens, decimal-long,
}
use zhenyi.Metrics.Number.{digits_of, format_int}

unfoldable pub negated : Option ℕ → Option ℕ
negated none = none
negated (some n) = some ((2 ^ 64 - n) % 2 ^ 64)

-- The 64 bits of the number that a text writes.
unfoldable pub read_int : List ℕ → Option ℕ
read_int [] = none
read_int (b ∷ s) = if b == 45 then negated (parse_digits 0 s) else parse_digits 0 (b ∷ s)

read_int-positive :
    (s : List ℕ) (n : ℕ) → 0 < length s → parse_digits 0 s ≡ some n → read_int s ≡ some n
unfolding read_int parse_digits
read_int-positive [] n long e = absurd (omega arith)
read_int-positive (b ∷ s) n long e = ground (arith, e)

digits-short : (n : ℕ) → n < 2 ^ 63 → length (decimal n) ≤ 19
unfolding tens
digits-short n h = decimal-short 18 n (omega (arith, h))

-- The text of an int64 other than the least one has at most 20 bytes, the length of the buffer, and is
-- the decimal text of the number.
pub format_int-Read :
    (v : ℕ)
    → v < 2 ^ 64
    → v ≢ 2 ^ 63
    → (length (format_int v) ≤ 20) × (read_int (format_int v) ≡ some v)
unfolding format_int digits_of read_int negated
format_int-Read v low apart =
    if_elim (λ r. (length r ≤ 20) × (read_int r ≡ some v)) (ltb v (2 ^ 63))
      (λ e.
        let h = ltb→lt v (2 ^ 63) e in
        rw e (
          omega (arith, digits-short v h),
          read_int-positive (decimal v) v (decimal-long v) (parse_digits-decimal v),
        ))
      (λ e.
        let h = ge_of_ltb v (2 ^ 63) e in
        let m = (2 ^ 64 - v) % 2 ^ 64 in
        let small : m < 2 ^ 63 = omega (arith, h, low, apart) in
        let back : (2 ^ 64 - m) % 2 ^ 64 ≡ v = omega (arith, h, low) in
        rw (lt→ltb m (2 ^ 63) small, parse_digits-decimal m)
          (omega (arith, digits-short m small), ap some back))
