-- ===== src/Actor/Tests.antt =====
-- zactor on concrete histories.
use zhenyi.Prelude.{
  ◌≢◌, ◌*◌, ◌++◌, ◌≤◌, true, false, ℕ, ◌+◌, ◌≡◌, refl, ◌<◌, ◌↔◌, List, [], ◌∷◌, some, arith, ltb,
  ◌==◌, if◌then◌else◌,
}
use zhenyi.Prelude.Maps.{lookup}
use zhenyi.Model.{ActorConfig}
use zhenyi.Actor.Breaker.{
  Breaker, closed, Event, asks, succeeds, fails, new_breaker, allow, run, step, streak,
}
use zhenyi.Actor.Restart.{
  Exit, exhausted, second, restart_window, backoff, counted, supervise, IsQuick, delays, IsTimed,
  supervise_exhausted, supervise_unlimited,
}
use zhenyi.Actor.Async.{holds, Ledger, pool_runs, rebuilt_pool_runs}
use zhenyi.Actor.Balance.{
  Conduct, Request, msg_request, flow_request, life, loses, one_if, life-balance, life-rebuilt,
}
use zhenyi.Actor.Breaker.History.{asks_at, run-closed_iff, tripped_cooldown}
use zhenyi.Actor.Routes.{
  RouteTable, contains, with_actor, register_routes, lookup_actors_by_msg_id, route_local,
  first_target, NoTwice, times, register_routes-lookup,
}
use zhenyi.Actor.Discovery.{new_discovery, lookup_others}
use zhenyi.Actor.Cache.{
  Change, loaded, changed, asked, handle_all, supporters, lookup_others-supporters,
}

-- A crash after the time `t`.
abbrev crash : ℕ → Exit
crash t = record { elapsed = t; is_done = false }

crash-IsQuick : (t : ℕ) → t ≤ restart_window → IsQuick (crash t)
crash-IsQuick t h = record { soon = h; going = refl }

supervise_exhausted_example :
    supervise 2 0 ((crash 10 ∷ crash 20 ∷ []) ++ (crash 30 ∷ [])) ≡ (exhausted, delays 0 2)
supervise_exhausted_example =
    supervise_exhausted 2 (crash 10 ∷ crash 20 ∷ []) (crash 30)
      (crash-IsQuick 10 (omega arith), (crash-IsQuick 20 (omega arith), _))
      (crash-IsQuick 30 (omega arith)) refl

abbrev crashes : List Exit
crashes = crash 5 ∷ crash (2 * second) ∷ []

crashes-IsTimed : IsTimed 0 crashes
unfolding IsTimed counted backoff
crashes-IsTimed = ((λ h. absurd (omega arith)), ((λ h. omega arith), _))

supervise_unlimited_example : (supervise 6 0 crashes).0 ≢ exhausted
supervise_unlimited_example =
    supervise_unlimited 6 0 crashes (omega arith) (omega arith) crashes-IsTimed

abbrev nothing_yet : Ledger
nothing_yet = record { retained = 0; released = 0; pooled = 0; calls = 0 }

abbrev failing_work : Conduct
failing_work = record { work_panics = true; checks = holds ∷ []; callback_panics = false }

abbrev checked_request : Request
checked_request = msg_request (holds ∷ []) true true true

life-balance_example :
    (life pool_runs checked_request failing_work nothing_yet).retained + 0
    ≡ (life pool_runs checked_request failing_work nothing_yet).released
      + 0
      + one_if (loses checked_request true)
life-balance_example = life-balance checked_request failing_work nothing_yet

abbrev good_work : Conduct
good_work = record { work_panics = false; checks = []; callback_panics = false }

life-rebuilt_example :
    ((life rebuilt_pool_runs (flow_request true true true true) good_work nothing_yet).calls ≡ 0)
    × ((life rebuilt_pool_runs (flow_request true true true true) good_work nothing_yet).released
        ≡ 0)
    × ((life rebuilt_pool_runs (flow_request true true true true) good_work nothing_yet).retained
        ≡ 1)
life-rebuilt_example = life-rebuilt true good_work nothing_yet

abbrev outage : List Event
outage = fails 1 ∷ asks 2 ∷ fails 3 ∷ succeeds 4 ∷ fails 5 ∷ []

run-closed_iff_example : ((run new_breaker outage).state ≡ closed) ↔ (streak 0 outage < 5)
run-closed_iff_example = run-closed_iff outage

abbrev shaky : Breaker
shaky = record {
  state = closed;
  failures = 4;
  last_fail_ms = 900;
  threshold = 5;
  cooldown_ms = 10000;
}

tripped_cooldown_example :
    (allow (run (step shaky (fails 1000)) (asks_at (1001 ∷ 11000 ∷ []))) 11001).1
    ≡ ltb (1000 + 10000) 11001
tripped_cooldown_example =
    tripped_cooldown shaky 1000 11001 (1001 ∷ 11000 ∷ []) (omega arith) (omega arith)
      (omega arith, (omega arith, _))

-- Messages 10 and 20 go to actor 1.
abbrev routes : RouteTable
routes = (10, 1 ∷ []) ∷ (20, 1 ∷ []) ∷ []

register_routes-lookup_example :
    lookup_actors_by_msg_id (register_routes (some 2) (20 ∷ 30 ∷ 20 ∷ []) routes) 20 ≡ (
      if contains 20 (20 ∷ 30 ∷ 20 ∷ [])
      then with_actor 2 (lookup_actors_by_msg_id routes 20)
      else lookup_actors_by_msg_id routes 20)
register_routes-lookup_example = register_routes-lookup 2 (20 ∷ 30 ∷ 20 ∷ []) 20 routes

routes-NoTwice : NoTwice routes
unfolding lookup_actors_by_msg_id lookup times
routes-NoTwice m a = ground arith

first_route : route_local routes 20 ≡ some 1
unfolding route_local first_target lookup_actors_by_msg_id lookup
first_route = refl

abbrev chat : ActorConfig
chat = record {
  id = 5;
  process = 2;
  actor_type = 3;
  index = 0;
  max_restarts = 0;
  supported_msg_ids = 10 ∷ 20 ∷ [];
}

abbrev changes : List Change
changes =
    loaded 1 (chat ∷ []) ∷ asked 10 ∷ changed (record chat { supported_msg_ids = 20 ∷ [] }) ∷ []

lookup_others-supporters_example : (lookup_others (handle_all changes new_discovery) 10).1 ≡ (
    if (let m : ℕ = 10 in m == 0)
    then []
    else supporters 10 (handle_all changes new_discovery).others)
lookup_others-supporters_example = lookup_others-supporters changes 10 (omega arith)
