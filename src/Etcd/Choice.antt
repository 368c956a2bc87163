-- ===== src/Etcd/Choice.antt =====
-- zdiscovery/etcd.go: the choice of `FindPoll` turns round.
use native.Mathlib.Nat.{mod-lt, mod-eq_of_lt}
use zhenyi.Prelude.{
  ℕ, zero, suc, ◌+◌, ◌-◌, ◌%◌, ◌^◌, ◌<◌, ◌≡◌, refl, ap, sym, ◌∙◌, List, [], ◌∷◌, some, length,
  get_elem?, lt→ltb, ==_ne, arith,
}
use zhenyi.Model.{ActorConfig}
use zhenyi.Etcd.Cache.{Poll, polled, picked_at, find_poll}

-- The choice after `k` earlier ones.
unfoldable pub nth_poll : ℕ → ℕ → List ActorConfig → Poll
nth_poll zero counter actors = (find_poll counter actors).1
nth_poll (suc k) counter actors = nth_poll k (find_poll counter actors).0 actors

find_poll_lem :
    (counter : ℕ) (actors : List ActorConfig)
    → 0 < length actors
    → counter < 2 ^ 63
    → find_poll counter actors
      ≡ (counter + 1, picked_at (get_elem? actors (counter % length actors)))
unfolding find_poll
find_poll_lem counter actors pos small =
    let next : (counter + 1) % 2 ^ 64 ≡ counter + 1 = mod-eq_of_lt (omega arith) in
    let back : (counter + 1 + 2 ^ 64 - 1) % 2 ^ 64 ≡ counter = omega (arith, small) in
    rw (
      ==_ne (length actors) 0 (λ e. absurd (omega arith)),
      next,
      back,
      lt→ltb counter (2 ^ 63) small,
    )

nth_poll-at :
    (k counter : ℕ) (actors : List ActorConfig)
    → 0 < length actors
    → counter + k < 2 ^ 63
    → nth_poll k counter actors ≡ picked_at (get_elem? actors ((counter + k) % length actors))
unfolding nth_poll
nth_poll-at zero counter actors pos small =
    let e : counter + 0 ≡ counter = omega arith in
    ap (λ r. r.1) (find_poll_lem counter actors pos (omega arith))
    ∙ ap (λ t. picked_at (get_elem? actors (t % length actors))) (sym e)
nth_poll-at (suc k) counter actors pos small =
    let e : counter + suc k ≡ counter + 1 + k = omega arith in
    ap (λ r. nth_poll k r.0 actors) (find_poll_lem counter actors pos (omega arith))
    ∙ (nth_poll-at k (counter + 1) actors pos (omega arith)
        ∙ ap (λ t. picked_at (get_elem? actors (t % length actors))) (sym e))

get_elem?-low :
    (actors : List ActorConfig) (i : ℕ)
    → i < length actors
    → (c : ActorConfig) × (get_elem? actors i ≡ some c)
get_elem?-low [] i h = absurd (omega arith)
get_elem?-low (c ∷ actors) zero h = (c, refl)
get_elem?-low (c ∷ actors) (suc i) h = get_elem?-low actors i (omega arith)

-- Before the counter reaches 2^63, the choice after `k` earlier ones from a list that has not changed and
-- has an actor is the actor at the place `counter + k` modulo the length, and does not panic.
pub nth_poll-polled :
    (k counter : ℕ) (actors : List ActorConfig)
    → 0 < length actors
    → counter + k < 2 ^ 63
    → (c : ActorConfig) × (get_elem? actors ((counter + k) % length actors) ≡ some c)
      × (nth_poll k counter actors ≡ polled c)
unfolding picked_at
nth_poll-polled k counter actors pos small =
    let (c, e) = get_elem?-low actors ((counter + k) % length actors) (mod-lt (counter + k) pos) in
    (c, e, nth_poll-at k counter actors pos small ∙ ap picked_at e)
