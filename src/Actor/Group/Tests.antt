-- ===== src/Actor/Group/Tests.antt =====
-- The group and the watchdog of zactor on three actors.
use zhenyi.Prelude.{ℕ, refl, true, false, List, [], ◌∷◌, arith, ◌==◌, not}
use zhenyi.Prelude.Maps.{lookup}
use zhenyi.Model.{ActorConfig}
use zhenyi.Actor.Group.{Item, Group, values, sort_by, run_group, new_group, find_pool_actor_by_type}
use zhenyi.Actor.Group.Rollback.{Ends, run_group-Ends}
use zhenyi.Actor.Group.Pick.{Distinct, Low, Balanced, find_pool_actor_by_type-Balanced}
use zhenyi.Actor.Watchdog.{Seen, new_watchdog, run}
use zhenyi.Actor.Watchdog.Spacing.{IsTracked, Spaced, latest, run-IsTracked}

abbrev game : ℕ → ActorConfig
game n = record {
  id = n;
  process = 1;
  actor_type = 3;
  index = n;
  max_restarts = 0;
  supported_msg_ids = [];
}

abbrev trio : Group
trio = record new_group {
  actors =
      (7, record { config = game 7; msg_list = 20 ∷ 10 ∷ []; is_server = false; count = 4 })
      ∷ (5, record { config = game 5; msg_list = []; is_server = true; count = 5 })
      ∷ (6, record { config = game 6; msg_list = []; is_server = true; count = 4 })
      ∷ [];
  has_discoverer = true;
}

-- The server of actor 6 fails.
run_group-Ends_example :
    Ends
      (λ id. true)
      (λ id. not (id == 6))
      true
      (sort_by (λ item. item.config.id) (values trio.actors))
      (run_group (λ id. true) (λ id. not (id == 6)) trio)
run_group-Ends_example = run_group-Ends (λ id. true) (λ id. not (id == 6)) trio

abbrev items : List Item
items =
    record { config = game 7; msg_list = []; is_server = false; count = 4 }
    ∷ record { config = game 5; msg_list = []; is_server = false; count = 5 }
    ∷ []

items-Distinct : Distinct items
unfolding Distinct
items-Distinct = (((λ e. absurd (omega arith)), _), (_, _))

items-Low : Low items
unfolding Low
items-Low = (omega arith, (omega arith, _))

items-Balanced : Balanced 3 4 items
unfolding Balanced
items-Balanced = ((λ _. (omega arith, omega arith)), ((λ _. (omega arith, omega arith)), _))

find_pool_actor_by_type-Balanced_example :
    (m : ℕ) × Balanced 3 m ((find_pool_actor_by_type 3 items).1)
find_pool_actor_by_type-Balanced_example =
    find_pool_actor_by_type-Balanced 3 3 4 items items-Distinct items-Low items-Balanced

-- Actor 5 hangs from 100 on; the third scan comes after the cooldown.
abbrev hanging : List Seen
hanging = record { id = 5; is_actor = true; processing_start = 100 } ∷ []

abbrev scans : List (ℕ × List Seen)
scans = (1000, hanging) ∷ (2000, hanging) ∷ (10000002000, hanging) ∷ []

new_watchdog-IsTracked : IsTracked (new_watchdog 200)
unfolding new_watchdog Spaced latest lookup
new_watchdog-IsTracked = record { last = λ id. refl; spaced = _ }

run-IsTracked_example : IsTracked (run scans (new_watchdog 200))
run-IsTracked_example = run-IsTracked scans (new_watchdog 200) new_watchdog-IsTracked
