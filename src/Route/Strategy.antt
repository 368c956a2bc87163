-- ===== src/Route/Strategy.antt =====
-- zroute/remote_strategy.go: the strategies that choose among remote actors. `PickOne` returns an
-- int that is -1 for an empty list: that is `none` here.
use Prim.Native.Nat.{bit_xor}
use zhenyi.Prelude.{
  ℕ, ◌+◌, ◌*◌, ◌/◌, ◌%◌, ◌^◌, Bool, true, List, [], ◌∷◌, Option, none, some, length, ltb, ◌==◌,
  if◌then◌else◌,
}
use zhenyi.Model.{ActorConfig}
use zhenyi.Msg.Envelope.{Message}

-- A nil message has no key.
unfoldable pub default_remote_route_key : Option Message → ℕ
default_remote_route_key none = 0
default_remote_route_key (some msg) =
    if msg.session_id == 0 then (if msg.rpc_id == 0 then 0 else msg.rpc_id) else msg.session_id

unfoldable pub first_candidate : List ActorConfig → Option ℕ
first_candidate candidates = if length candidates == 0 then none else some 0

-- The counter is an atomic uint64; the new counter stands beside the choice.
unfoldable pub round_robin : ℕ → List ActorConfig → ℕ × Option ℕ
round_robin seq candidates =
    let n = length candidates in
    let next = (seq + 1) % 2 ^ 64 in if n == 0 then (seq, none) else (next, some (next % n))

abbrev u64 : ℕ → ℕ
u64 x = x % 2 ^ 64

unfoldable pub hrw_score : ℕ → ℕ → ℕ → ℕ
hrw_score key actor_id process =
    let x0 = bit_xor key (u64 (actor_id + u64 (0x100000001b3 * process))) in
    let x1 = bit_xor x0 (x0 / 2 ^ 33) in
    let x2 = u64 (x1 * 0x9e3779b185ebca87) in
    let x3 = bit_xor x2 (x2 / 2 ^ 29) in
    let x4 = u64 (x3 * 0xc2b2ae3d27d4eb4f) in bit_xor x4 (x4 / 2 ^ 32)

abbrev pub score : ℕ → ActorConfig → ℕ
score key c = hrw_score key c.id c.process

-- `bestIdx < 0 || score > bestScore`
unfoldable pub better : Option (ℕ × ℕ) → ℕ → Bool
better none s = true
better (some (best_idx, best_score)) s = ltb best_score s

-- The loop: `i` counts, `best` is `bestIdx` with `bestScore`.
unfoldable pub best_from : ℕ → ℕ → Option (ℕ × ℕ) → List ActorConfig → Option (ℕ × ℕ)
best_from key i best [] = best
best_from key i best (c ∷ cs) =
    best_from key (i + 1) (if better best (score key c) then some (i, score key c) else best) cs

abbrev index_of : Option (ℕ × ℕ) → Option ℕ
index_of none = none
index_of (some (i, s)) = some i

-- `key_fn` is `KeyFunc`, or the default where that is nil.
unfoldable pub rendezvous : (Option Message → ℕ) → Option Message → List ActorConfig → Option ℕ
rendezvous key_fn msg candidates =
    let n = length candidates in
    let key = key_fn msg in
    if n == 0
    then none
    else if n == 1
    then some 0
    else if key == 0
    then some 0
    else index_of (best_from key 0 none candidates)
