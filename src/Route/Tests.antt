-- ===== src/Route/Tests.antt =====
-- zroute on three candidates.
use zhenyi.Prelude.{
  ℕ, ◌≡◌, refl, ◌≢◌, List, [], ◌∷◌, Option, none, some, arith, get_elem?, remove_at,
}
use zhenyi.Model.{ActorConfig}
use zhenyi.Msg.Envelope.{Message}
use zhenyi.Route.Strategy.{rendezvous, best_from, better, hrw_score}
use zhenyi.Route.Winner.{IsWinner, rendezvous-IsWinner, rendezvous-remove_at}

abbrev room : ℕ → ActorConfig
room id = record {
  id = id;
  process = 2;
  actor_type = 3;
  index = 0;
  max_restarts = 0;
  supported_msg_ids = [];
}

abbrev rooms : List ActorConfig
rooms = room 1 ∷ room 2 ∷ room 3 ∷ []

-- A key that depends on nothing.
abbrev fixed_key : Option Message → ℕ
fixed_key msg = 77

fixed_key_ne : fixed_key none ≢ 0
fixed_key_ne e = absurd (omega arith)

rendezvous-IsWinner_example :
    (j : ℕ) × (c : ActorConfig) × (rendezvous fixed_key none rooms ≡ some j) × IsWinner 77 rooms j c
rendezvous-IsWinner_example = rendezvous-IsWinner fixed_key none rooms fixed_key_ne (omega arith)

chosen_room : rendezvous fixed_key none rooms ≡ some 1
unfolding rendezvous best_from better hrw_score
chosen_room = refl

rendezvous-remove_at_example :
    (j : ℕ) × (c : ActorConfig) × (rendezvous fixed_key none (remove_at 0 rooms) ≡ some j)
    × (get_elem? (remove_at 0 rooms) j ≡ some c)
    × (get_elem? rooms 1 ≡ some c)
rendezvous-remove_at_example =
    rendezvous-remove_at fixed_key none rooms 1 0 fixed_key_ne (omega arith) chosen_room
      (λ e. absurd (omega arith))
