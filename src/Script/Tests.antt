-- ===== src/Script/Tests.antt =====
-- zscript/stats.go: two calls at once.
use zhenyi.Prelude.{ℕ, Bool, true, false, List, [], ◌∷◌, ◌≡◌, refl}
use zhenyi.Script.Stats.{new_collector, run, step, advance, advance_at, move_to}
use zhenyi.Script.Extremes.{begin, IsExtreme, run-IsExtreme}

abbrev two_calls : List (ℕ × Bool)
two_calls = (7, false) ∷ (9, true) ∷ []

-- The second call takes the maximum between the first one's load and its compare-and-swap.
abbrev schedule : List ℕ
schedule = 0 ∷ 0 ∷ 0 ∷ 0 ∷ 1 ∷ 1 ∷ 1 ∷ 1 ∷ 1 ∷ 0 ∷ 0 ∷ 0 ∷ 1 ∷ 1 ∷ 0 ∷ 0 ∷ []

longest : (run schedule new_collector (begin two_calls)).0.max_duration ≡ 9
unfolding run step advance advance_at move_to begin
longest = refl

run-IsExtreme_example :
    IsExtreme
      (run schedule new_collector (begin two_calls)).0
      (run schedule new_collector (begin two_calls)).1
run-IsExtreme_example = run-IsExtreme schedule two_calls
