-- ===== src/Gate/Remote.antt =====
-- zgate/gate.go: `routeToRemoteActor` from the candidates on. The bus is a parameter: whether the
-- broadcast of the `i`-th attempt to a topic, with these bytes, returns no error.
use zhenyi.Prelude.{
  ℕ, zero, suc, ◌+◌, ◌-◌, Bool, true, false, List, [], ◌∷◌, ◌++◌, none, some, length, get_elem?,
  take, replicate, ltb, leb, ◌==◌, if◌then◌else◌,
}
use zhenyi.Prelude.Outcome.{Outcome, ok, err, panic, ◌>>=◌}
use zhenyi.Model.{ActorConfig, Topic, get_topic}
use zhenyi.Msg.Envelope.{Message, Error, size, marshal_to}

-- An int, as what a strategy returns.
pub data ℤ : Type 0 where
  pos negsuc : ℕ → ℤ

-- The message, which the loop changes, the reused buffer, what the bus took, and the counters.
pub record Routing : Type 0 where
  pub msg : Message
  pub encoded : List ℕ
  pub sent : List (Topic × List ℕ)
  pub tries : ℕ
  pub fallbacks : ℕ
  pub fails : ℕ
  pub remote : ℕ

-- An index out of range stands for the first candidate.
unfoldable pub pick_index : ℤ → ℕ → ℕ
pick_index (negsuc n) count = 0
pick_index (pos n) count = if leb count n then 0 else n

-- The candidate of the `i`-th attempt: the preferred one, then the others in their order.
unfoldable pub attempt : ℕ → ℕ → ℕ
attempt pick i =
    let orig_idx = i - 1 in
    if i == 0 then pick else if leb pick orig_idx then orig_idx + 1 else orig_idx

-- `broken` is a marshal error, which ends the loop.
pub data Attempt : Type 0 where
  accepted refused broken : Attempt

module _ (broadcast : ℕ → Topic → List ℕ → Bool) where
  unfoldable pub send_one : ℕ → ActorConfig → Routing → Outcome Error (Attempt × Routing)
  send_one i target r =
      let msg = record r.msg { tar_actor = target.id } in
      let topic = get_topic target in
      let need = size msg in
      let buf = if ltb (length r.encoded) need then replicate need 0 else take need r.encoded in
      let tried = record r {
        msg = msg;
        tries = r.tries + 1;
        fallbacks = if i == 0 then r.fallbacks else r.fallbacks + 1;
      } in
      elim (marshal_to msg buf) [
        | ok (buf, n) ↦
            let bytes = take n buf in
            if broadcast i topic bytes
            then ok (
              accepted,
              record tried {
                encoded = buf;
                sent = r.sent ++ ((topic, bytes) ∷ []);
                remote = r.remote + 1;
              },
            )
            else ok (refused, record tried { encoded = buf; fails = r.fails + 1 })
        | err e ↦ ok (broken, record tried { encoded = buf; fails = r.fails + 1 })
        | panic ↦ panic
      ]

  -- The rounds that are left, and `i`.
  unfoldable pub try_from : List ActorConfig → ℕ → ℕ → ℕ → Routing → Outcome Error (Bool × Routing)
  try_from candidates pick zero i r = ok (false, r)
  try_from candidates pick (suc rounds) i r = elim (get_elem? candidates (attempt pick i)) [
    | none ↦ panic
    | some target ↦ send_one i target r >>= λ (a, next). elim a [
      | accepted ↦ ok (true, next)
      | broken ↦ ok (false, next)
      | refused ↦ try_from candidates pick rounds (i + 1) next
    ]
  ]

  -- `picked` is the strategy's choice, and `has_bus` tells whether a bus is configured.
  unfoldable pub route_to_remote :
      List ActorConfig → Bool → ℤ → Routing → Outcome Error (Bool × Routing)
  route_to_remote candidates has_bus picked r =
      let count = length candidates in
      if count == 0
      then ok (false, r)
      else if has_bus
      then try_from candidates (pick_index picked count) count 0 r
      else ok (false, record r { fails = r.fails + 1 })
