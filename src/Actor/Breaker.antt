-- ===== src/Actor/Breaker.antt =====
-- zactor/circuitbreaker.go: the circuit breaker of one target. Times are milliseconds; the clock's
-- reading is an argument. The methods run on the actor's goroutine, one after the other. The count of
-- failures is an int32, kept as its 32 bits; 2^31 and more are negative.
pub mod History
use zhenyi.Prelude.{
  ℕ, zero, suc, ◌+◌, ◌-◌, ◌*◌, ◌%◌, ◌^◌, ◌≤◌, ◌<◌, ◌≡◌, refl, ◌≢◌, ◌⊎◌, inl, inr, Bool, true, false,
  List, [], ◌∷◌, arith, ltb, leb, ◌==◌, if◌then◌else◌, length,
}

pub data CbState : Type 0 where
  closed open_ half_open : CbState

abbrev pub default_threshold : ℕ
default_threshold = 5

abbrev pub default_cooldown_ms : ℕ
default_cooldown_ms = 10 * 1000

pub record Breaker : Type 0 where
  pub state : CbState
  pub failures : ℕ
  pub last_fail_ms : ℕ
  pub threshold : ℕ
  pub cooldown_ms : ℕ

unfoldable pub new_breaker : Breaker
new_breaker = record {
  state = closed;
  failures = 0;
  last_fail_ms = 0;
  threshold = default_threshold;
  cooldown_ms = default_cooldown_ms;
}

allow_in : CbState → Breaker → ℕ → Breaker × Bool
allow_in closed b now = (b, true)
allow_in open_ b now =
    if ltb (b.last_fail_ms + b.cooldown_ms) now
    then (record b { state = half_open }, true)
    else (b, false)
allow_in half_open b now = (b, true)

-- `now - lastFail > cooldown`, written without the subtraction.
unfoldable pub allow : Breaker → ℕ → Breaker × Bool
unfolding allow_in
allow b now = allow_in b.state b now

unfoldable pub record_success : Breaker → Breaker
record_success b = record b { failures = 0; state = closed }

unfoldable pub record_failure : Breaker → ℕ → Breaker
record_failure b now =
    let n = (b.failures + 1) % 2 ^ 32 in
    let reached = if ltb n (2 ^ 31) then leb b.threshold n else false in
    record b { last_fail_ms = now; failures = n; state = if reached then open_ else b.state }

-- What a caller may do, with the clock at that time.
pub data Event : Type 0 where
  asks succeeds fails : ℕ → Event

unfoldable pub step : Breaker → Event → Breaker
unfolding allow record_success record_failure
step b (asks now) = (allow b now).0
step b (succeeds now) = record_success b
step b (fails now) = record_failure b now

unfoldable pub run : Breaker → List Event → Breaker
unfolding step
run b [] = b
run b (e ∷ es) = run (step b e) es

-- The failures since the last success, read off the history.
unfoldable pub streak : ℕ → List Event → ℕ
streak n [] = n
streak n (asks now ∷ es) = streak n es
streak n (succeeds now ∷ es) = streak 0 es
streak n (fails now ∷ es) = streak (n + 1) es
