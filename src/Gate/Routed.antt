-- ===== src/Gate/Routed.antt =====
-- `routeToRemoteActor`: how much the bus got, with a bus or without, with candidates or none.
use zhenyi.Prelude.{
  ℕ, suc, ◌+◌, ◌<◌, ◌^◌, ◌≡◌, refl, ap, ◌∙◌, Bool, true, false, List, [], ◌∷◌, some, length,
  length-append, get_elem?, ◌==◌, arith, ◌⊎◌, inl, inr, ==_ne,
}
use zhenyi.Prelude.Outcome.{ok}
use zhenyi.Model.{ActorConfig, Topic}
use zhenyi.Msg.Envelope.{Message}
use zhenyi.Gate.Remote.{ℤ, Routing, attempt, pick_index, route_to_remote}
use zhenyi.Gate.Fallback.{takes, route_to_remote-Decides}

-- Every candidate turned the message down.
abbrev pub NoneTakes : (ℕ → Topic → List ℕ → Bool) → List ActorConfig → ℤ → Message → Type 0
NoneTakes broadcast cs picked msg =
    (j : ℕ) (target : ActorConfig)
    → j < length cs
    → get_elem? cs (attempt (pick_index picked (length cs)) j) ≡ some target
    → takes broadcast msg j target ≡ false

-- What `routeToRemoteActor` says, and what the bus got.
unfoldable pub Routed : (ℕ → Topic → List ℕ → Bool) → List ActorConfig → Bool → ℤ → Routing → Type 0
Routed broadcast cs has_bus picked r =
    ((next : Routing) × (route_to_remote broadcast cs has_bus picked r ≡ ok (true, next))
      × (length next.sent ≡ length r.sent + 1))
    ⊎ ((next : Routing) × (route_to_remote broadcast cs has_bus picked r ≡ ok (false, next))
        × (length next.sent ≡ length r.sent)
        × (has_bus ≡ true → NoneTakes broadcast cs picked r.msg))

module _ (broadcast : ℕ → Topic → List ℕ → Bool) where
  no_candidates : (has_bus : Bool) (picked : ℤ) (r : Routing) → Routed broadcast [] has_bus picked r
  unfolding Routed route_to_remote
  no_candidates has_bus picked r = inr (r, refl, refl, (λ h j target low at. absurd (omega arith)))

  no_bus :
      (c : ActorConfig) (cs : List ActorConfig) (picked : ℤ) (r : Routing)
      → Routed broadcast (c ∷ cs) false picked r
  unfolding Routed route_to_remote
  no_bus c cs picked r =
      let no : (suc (length cs) == 0) ≡ false = ==_ne (suc (length cs)) 0 (λ e. omega arith) in
      inr (record r { fails = r.fails + 1 }, rw no, refl, (λ h. cc))

  with_bus :
      (c : ActorConfig) (cs : List ActorConfig) (picked : ℤ) (r : Routing)
      → length r.msg.payload.bytes < 2 ^ 32
      → Routed broadcast (c ∷ cs) true picked r
  unfolding Routed
  with_bus c cs picked r fits =
      let (pick, small, is_pick, runs, decides) =
        route_to_remote-Decides broadcast (c ∷ cs) picked r (omega arith) fits in
      elim decides [
        | inl (k, target, next, d) ↦
            inl (next, runs ∙ d.runs, ap length d.sent ∙ length-append r.sent _)
        | inr (next, d) ↦ inr (
          next,
          runs ∙ d.runs,
          ap length d.sent,
          (λ h j target low at.
              d.all j (omega arith) (omega arith) target
                (ap (λ p. get_elem? (c ∷ cs) (attempt p j)) is_pick ∙ at)),
        )
      ]

  pub route_to_remote-Routed :
      (cs : List ActorConfig) (has_bus : Bool) (picked : ℤ) (r : Routing)
      → length r.msg.payload.bytes < 2 ^ 32
      → Routed broadcast cs has_bus picked r
  route_to_remote-Routed [] has_bus picked r fits = no_candidates has_bus picked r
  route_to_remote-Routed (c ∷ cs) false picked r fits = no_bus c cs picked r
  route_to_remote-Routed (c ∷ cs) true picked r fits = with_bus c cs picked r fits
