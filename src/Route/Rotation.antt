-- ===== src/Route/Rotation.antt =====
-- Round robin: what a run of choices covers.
use native.Mathlib.Nat.{mod-lt, mod-eq_of_lt, add-mod-mod, mod-add-mod, add-mod_right}
use zhenyi.Prelude.{
  ℕ, zero, suc, ◌+◌, ◌-◌, ◌%◌, ◌^◌, ◌<◌, ◌≡◌, ap, sym, ◌∙◌, List, Option, some, length, arith,
  ==_ne,
}
use zhenyi.Model.{ActorConfig}
use zhenyi.Route.Strategy.{round_robin}

-- The choice after `k` earlier ones.
unfoldable pub nth_pick : ℕ → ℕ → List ActorConfig → Option ℕ
nth_pick zero seq cs = (round_robin seq cs).1
nth_pick (suc k) seq cs = nth_pick k (round_robin seq cs).0 cs

pick_lem :
    (seq : ℕ) (cs : List ActorConfig)
    → 0 < length cs
    → seq + 1 < 2 ^ 64
    → round_robin seq cs ≡ (seq + 1, some ((seq + 1) % length cs))
unfolding round_robin
pick_lem seq cs pos small = rw (==_ne (length cs) 0 (λ e. absurd (omega arith)), mod-eq_of_lt small)

nth_pick-mod :
    (k seq : ℕ) (cs : List ActorConfig)
    → 0 < length cs
    → seq + k + 1 < 2 ^ 64
    → nth_pick k seq cs ≡ some ((seq + k + 1) % length cs)
unfolding nth_pick
nth_pick-mod zero seq cs pos small =
    let e : seq + 0 + 1 ≡ seq + 1 = omega arith in
    ap (λ r. r.1) (pick_lem seq cs pos (omega arith)) ∙ ap (λ t. some (t % length cs)) (sym e)
nth_pick-mod (suc k) seq cs pos small =
    let e : seq + suc k + 1 ≡ seq + 1 + k + 1 = omega arith in
    ap (λ r. nth_pick k r.0 cs) (pick_lem seq cs pos (omega arith))
    ∙ (nth_pick-mod k (seq + 1) cs pos (omega arith) ∙ ap (λ t. some (t % length cs)) (sym e))

-- How many choices are made before that of `j`.
abbrev turn : ℕ → ℕ → ℕ → ℕ
turn n seq j = (j + (n - (seq + 1) % n)) % n

turn_back : (n seq j : ℕ) → 0 < n → j < n → (seq + turn n seq j + 1) % n ≡ j
turn_back n seq j pos lt =
    let a : ℕ = (seq + 1) % n in
    let b : ℕ = j + (n - a) in
    let small : a < n = mod-lt (seq + 1) pos in
    let e : seq + b % n + 1 ≡ (seq + 1) + b % n = omega arith in
    let f : a + b ≡ j + n = omega arith in
    ap (λ t. t % n) e
    ∙ (add-mod-mod (seq + 1) b n
        ∙ (sym (mod-add-mod (seq + 1) n b)
            ∙ (ap (λ t. t % n) f ∙ (add-mod_right j n ∙ mod-eq_of_lt lt))))

-- While the counter does not wrap, any run of as many choices as there are candidates chooses
-- every candidate.
pub nth_pick_covers :
    (seq j : ℕ) (cs : List ActorConfig)
    → seq + length cs < 2 ^ 64
    → j < length cs
    → (k : ℕ) × (k < length cs) × (nth_pick k seq cs ≡ some j)
nth_pick_covers seq j cs small lt =
    let n = length cs in
    let k = turn n seq j in
    let pos : 0 < n = omega arith in
    let bound : k < n = mod-lt (j + (n - (seq + 1) % n)) pos in
    (k, bound, nth_pick-mod k seq cs pos (omega arith) ∙ ap some (turn_back n seq j pos lt))
