-- ===== src/Metrics/Tests.antt =====
-- zmetrics/metrics.go: a histogram over whole milliseconds, texts, and the theorems at concrete inputs.
use zhenyi.Prelude.{
  ℕ, ◌-◌, ◌*◌, ◌/◌, ◌%◌, ◌^◌, ◌≤◌, ◌≡◌, refl, true, List, [], ◌∷◌, some, length, get_or, leb, arith,
}
use zhenyi.Metrics.Histogram.{Scale, new_histogram, observe_all, snapshot}
use zhenyi.Metrics.Number.{format_int, digits_of}
use zhenyi.Metrics.Cumulative.{Ascending, count_at_most, snapshot-counts}
use zhenyi.Metrics.Printed.{read_int, format_int-Read}

abbrev whole : Scale
whole = record { F = ℕ; le = leb; nanos = λ v. v * 1000000; millis = λ n. n / 1000000 }

whole_trans : (a b c : ℕ) → leb a b ≡ true → leb b c ≡ true → leb a c ≡ true
whole_trans a b c h k = ground (arith, h, k)

abbrev bounds : List ℕ
bounds = 1 ∷ 5 ∷ 10 ∷ []

bounds-Ascending : Ascending whole bounds
unfolding Ascending
bounds-Ascending = ((refl, (refl, _)), ((refl, _), (_, _)))

abbrev seen : List ℕ
seen = 3 ∷ 5 ∷ 40 ∷ []

snapshot-counts_example :
    let s = snapshot whole (observe_all whole seen (new_histogram whole bounds)) in
    (s.0 ≡ bounds)
    × (get_or s.1 1 0 ≡ count_at_most whole bounds 1 seen % 2 ^ 64)
    × (s.3 ≡ length seen % 2 ^ 64)
snapshot-counts_example =
    snapshot-counts whole whole_trans bounds seen 1 bounds-Ascending (omega arith)

-- The text of -42.
format_int-Read_example :
    (length (format_int (2 ^ 64 - 42)) ≤ 20)
    × (read_int (format_int (2 ^ 64 - 42)) ≡ some (2 ^ 64 - 42))
format_int-Read_example =
    format_int-Read (2 ^ 64 - 42) (omega arith) (λ e. absurd (omega (arith, e)))

-- The least int64 is printed as "-0".
least_text : format_int (2 ^ 63) ≡ 45 ∷ 48 ∷ []
unfolding format_int digits_of
least_text = refl
