-- ===== src/Metrics/Number.antt =====
-- zmetrics/metrics.go: `formatInt` of an int64, which is kept as its 64 bits.
use zhenyi.Prelude.{ℕ, ◌+◌, ◌-◌, ◌%◌, ◌^◌, List, [], ◌∷◌, ltb, if◌then◌else◌}
use zhenyi.Prelude.Digits.{decimal}

-- The digits of what is not below 10, or the byte of a number that is still negative.
unfoldable pub digits_of : ℕ → List ℕ
digits_of v = if ltb v (2 ^ 63) then decimal v else ((48 + v) % 256) ∷ []

unfoldable pub format_int : ℕ → List ℕ
format_int v = if ltb v (2 ^ 63) then digits_of v else 45 ∷ digits_of ((2 ^ 64 - v) % 2 ^ 64)
