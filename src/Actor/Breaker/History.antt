-- ===== src/Actor/Breaker/History.antt =====
-- The breaker's state after any history of calls.
use zhenyi.Prelude.{
  ℕ, ◌+◌, ◌≤◌, ◌<◌, ◌≡◌, refl, ◌≢◌, ◌⊎◌, ◌↔◌, inl, inr, List, [], ◌∷◌, map, arith, ltb, leb, All,
  Bool-cases, leb→le, lt_of_leb, lt→ltb, le→leb, if_elim, true, false, if◌then◌else◌, ◌%◌, ◌^◌,
}
use zhenyi.Actor.Breaker.{
  Breaker, CbState, closed, open_, half_open, Event, asks, succeeds, fails, new_breaker, allow,
  allow_in, record_success, record_failure, step, run, streak,
}

-- The state and the failures in a row agree. While the breaker is closed, its count is their number; in
-- the other states the count may wrap.
record IsCounted (b : Breaker) (n : ℕ) : Type 0 where
  pub limit : b.threshold ≡ 5
  pub passing : b.state ≡ closed → (b.failures ≡ n) × (n < 5)
  pub tripped : b.state ≢ closed → 5 ≤ n

asks-IsCounted :
    (b : Breaker) (s : CbState) (now n : ℕ)
    → b.state ≡ s
    → IsCounted b n
    → IsCounted (allow_in s b now).0 n
unfolding allow_in
asks-IsCounted b closed now n e v = v
asks-IsCounted b open_ now n e v = elim (Bool-cases (ltb (b.last_fail_ms + b.cooldown_ms) now)) [
  | inl cooled ↦
      rw cooled (record { limit = v.limit; passing = λ q. cc; tripped = λ _. v.tripped (λ q. cc) })
  | inr hot ↦ rw hot v
]
asks-IsCounted b half_open now n e v = v

CbState-closed_cases : (s : CbState) → (s ≡ closed) ⊎ (s ≢ closed)
CbState-closed_cases closed = inl refl
CbState-closed_cases open_ = inr (λ e. cc)
CbState-closed_cases half_open = inr (λ e. cc)

fails_closed :
    (b : Breaker) (now n : ℕ)
    → b.state ≡ closed
    → IsCounted b n
    → IsCounted (record_failure b now) (n + 1)
unfolding record_failure
fails_closed b now n e v =
    let (same, low) = v.passing e in
    let next : (b.failures + 1) % 2 ^ 32 ≡ n + 1 = omega (arith, same, low) in
    let positive : ltb (n + 1) (2 ^ 31) ≡ true = lt→ltb (n + 1) (2 ^ 31) (omega (arith, low)) in
    rw (next, positive, v.limit)
      (elim (Bool-cases (leb 5 (n + 1))) [
        | inl over ↦
            rw over
              (record { limit = refl; passing = λ q. cc; tripped = λ _. leb→le 5 (n + 1) over })
        | inr under ↦ rw under (record {
          limit = refl;
          passing = λ _. (refl, lt_of_leb 5 (n + 1) under);
          tripped = λ q. absurd (q e);
        })
      ])

fails_tripped :
    (b : Breaker) (now n : ℕ)
    → b.state ≢ closed
    → IsCounted b n
    → IsCounted (record_failure b now) (n + 1)
unfolding record_failure
fails_tripped b now n ne v =
    let m = (b.failures + 1) % 2 ^ 32 in
    let reached = if ltb m (2 ^ 31) then leb b.threshold m else false in
    let late : (if reached then open_ else b.state) ≢ closed =
      if_elim (λ r. r ≢ closed) reached (λ _ q. cc) (λ _. ne) in
    record {
      limit = v.limit;
      passing = λ q. absurd (late q);
      tripped = λ _. omega (arith, v.tripped ne);
    }

run-IsCounted :
    (b : Breaker) (es : List Event) (n : ℕ) → IsCounted b n → IsCounted (run b es) (streak n es)
unfolding run step streak allow record_success
run-IsCounted b [] n v = v
run-IsCounted b (asks now ∷ es) n v = run-IsCounted _ es n (asks-IsCounted b b.state now n refl v)
run-IsCounted b (succeeds now ∷ es) n v =
    run-IsCounted (record_success b) es 0 (record {
      limit = v.limit;
      passing = λ _. (refl, omega arith);
      tripped = λ h. absurd (h refl);
    })
run-IsCounted b (fails now ∷ es) n v =
    run-IsCounted (record_failure b now) es (n + 1) (elim (CbState-closed_cases b.state) [
      | inl e ↦ fails_closed b now n e v
      | inr ne ↦ fails_tripped b now n ne v
    ])

new-IsCounted : IsCounted new_breaker 0
unfolding new_breaker
new-IsCounted = record {
  limit = refl;
  passing = λ _. (refl, omega arith);
  tripped = λ h. absurd (h refl);
}

-- After any history of calls a new breaker is closed exactly while fewer than five calls have
-- failed since the last success.
pub run-closed_iff : (es : List Event) → ((run new_breaker es).state ≡ closed) ↔ (streak 0 es < 5)
run-closed_iff es =
    let v = run-IsCounted new_breaker es 0 new-IsCounted in
    (
      λ h. (v.passing h).1,
      λ h. elim (CbState-closed_cases (run new_breaker es).state) [
        | inl e ↦ e
        | inr e ↦ absurd (omega (arith, v.tripped e, h))
      ],
    )

-- The times of a run of requests.
abbrev pub asks_at : List ℕ → List Event
asks_at = map asks

open_refuses :
    (b : Breaker) (ts : List ℕ)
    → b.state ≡ open_
    → All (λ t. t ≤ b.last_fail_ms + b.cooldown_ms) ts
    → run b (asks_at ts) ≡ b
unfolding run step allow allow_in
open_refuses b [] e early = refl
open_refuses b (t ∷ ts) e early = ground (arith, open_refuses b ts e early.1)

-- When a failure trips the breaker, with a count below the largest int32, every request up to the end of
-- the cooldown is refused and changes nothing, and the first one after it is let through.
pub tripped_cooldown :
    (b : Breaker) (t now : ℕ) (ts : List ℕ)
    → b.threshold ≤ b.failures + 1
    → b.failures + 1 < 2 ^ 31
    → All (λ u. u ≤ t + b.cooldown_ms) ts
    → (allow (run (step b (fails t)) (asks_at ts)) now).1 ≡ ltb (t + b.cooldown_ms) now
unfolding step allow allow_in record_failure
tripped_cooldown b t now ts h small early =
    let c = record_failure b t in
    let next : (b.failures + 1) % 2 ^ 32 ≡ b.failures + 1 = omega (arith, small) in
    let open_now : c.state ≡ open_ =
      rw (next, lt→ltb (b.failures + 1) (2 ^ 31) small, le→leb b.threshold (b.failures + 1) h) in
    rw (open_refuses c ts open_now early) (ground (arith, open_now))
