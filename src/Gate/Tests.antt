-- ===== src/Gate/Tests.antt =====
-- zgate on concrete calls.
use zhenyi.Prelude.{
  ℕ, ◌≡◌, refl, ◌<◌, Bool, true, false, List, [], ◌∷◌, none, some, arith, length, take, ◌==◌,
  if◌then◌else◌,
}
use zhenyi.Prelude.Maps.{lookup}
use zhenyi.Model.{ActorConfig, Topic}
use zhenyi.Msg.Envelope.{nil_slice}
use zhenyi.Gate.Remote.{negsuc, Routing, pick_index, attempt, try_from, route_to_remote}
use zhenyi.Gate.Attempts.{attempt_covers}
use zhenyi.Gate.Fallback.{Decides, route_to_remote-Decides}
use zhenyi.Gate.Session.{Sessions, IsMap}
use zhenyi.Gate.Server.{Server, World, gate_handler}
use zhenyi.Gate.Destination.{Goes, gate_handler-Goes}
use zhenyi.Gate.Tracker.{Tracker, zero_slot, get_and_reset_samples}
use zhenyi.Gate.Samples.{Call, sends, completes, perform_all, get_and_reset_samples-perform_all}

attempt_covers_example : (i : ℕ) × (i < 3) × (attempt 1 i ≡ 2) × ((k : ℕ) → attempt 1 k ≡ 2 → k ≡ i)
attempt_covers_example = attempt_covers 3 1 2 (omega arith) (omega arith)

abbrev server : ℕ → ActorConfig
server id = record {
  id = id;
  process = 2;
  actor_type = 3;
  index = 0;
  max_restarts = 0;
  supported_msg_ids = 10 ∷ [];
}

abbrev servers : List ActorConfig
servers = server 4 ∷ server 5 ∷ []

abbrev request : Routing
request = record {
  msg = record {
    session_id = 9;
    rpc_id = 0;
    trace_id_hi = 0;
    trace_id_lo = 0;
    span_id = 0;
    payload = nil_slice;
    msg_id = 10;
    src_actor = 1;
    tar_actor = 0;
    ref_count = 1;
    seq_id = 6;
    to_client = false;
    from_client = true;
    is_response = false;
  };
  encoded = [];
  sent = [];
  tries = 0;
  fallbacks = 0;
  fails = 0;
  remote = 0;
}

-- The first attempt fails.
abbrev second_try : ℕ → Topic → List ℕ → Bool
second_try i topic bytes = i == 1

route_to_remote-Decides_example :
    (pick : ℕ) × (small : pick < length servers) × (pick ≡ pick_index (negsuc 0) (length servers))
    × (route_to_remote second_try servers true (negsuc 0) request
        ≡ try_from second_try servers pick (length servers) 0 request)
    × Decides second_try servers pick small 0 (length servers) request
route_to_remote-Decides_example =
    route_to_remote-Decides second_try servers (negsuc 0) request (omega arith) (omega arith)

abbrev logged_in : Sessions
logged_in = (42, (1, 100) ∷ (2, 200) ∷ []) ∷ []

abbrev moved : List (ℕ × ℕ)
moved = (2, 201) ∷ (3, 300) ∷ []

moved-IsMap : IsMap moved
unfolding IsMap lookup
moved-IsMap = (refl, (refl, _))

abbrev tracker : Tracker
tracker = record {
  buffer = zero_slot ∷ zero_slot ∷ [];
  mask = 1;
  samples = 0 ∷ 0 ∷ [];
  sample_idx = 9;
  max_samples = 2;
}

abbrev calls : List Call
calls = sends 3 1 1000 ∷ completes 3 1 1500 ∷ []

get_and_reset_samples-perform_all_example :
    (get_and_reset_samples (perform_all calls (get_and_reset_samples tracker).0).0).1
    ≡ take 2 (perform_all calls (get_and_reset_samples tracker).0).1
get_and_reset_samples-perform_all_example =
    get_and_reset_samples-perform_all tracker calls refl (omega arith)

-- A gate with a handler for message 20, in front of two servers that take message 10.
abbrev gate : Server
gate = record {
  msg_list = (20, 1) ∷ [];
  handlers = (20, 7) ∷ [];
  inbox = [];
  own = [];
  locals = [];
  to_client = [];
  held = 0;
  unhandled = 0;
  unrouted = 0;
  routing = request;
  online = 1;
  local_recv = 0;
  recv_total = 0;
  local_sent = 0;
  sent_total = 0;
  first_packet_time = 0;
  tracker = tracker;
  global_total_rtt = 0;
  global_count_rtt = 0;
}

abbrev world : World
world = record {
  self = 1;
  has_channel = λ id. id == 9;
  router = none;
  candidates = some (λ id. if id == 10 then servers else []);
  pick_one = λ m cs. negsuc 0;
  has_bus = true;
  broadcast = second_try;
  no_route = none;
  inject = λ m. m;
  grown = λ n. n;
}

gate_handler-Goes_example : Goes world 50 request.msg gate (gate_handler world 50 request.msg gate)
gate_handler-Goes_example = gate_handler-Goes world 50 request.msg gate (omega arith)
