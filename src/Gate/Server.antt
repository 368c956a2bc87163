-- ===== src/Gate/Server.antt =====
-- zgate/gate.go: the gate's own handlers, from a client's packet (`OnRead`) over the choice of its
-- destination (`gateHandler`) to the answer (`sendClient`), with its counters. The network server,
-- the limiter, the business hooks and the clock are arguments; the message of a command is its
-- content. Logs and Prometheus counters are left out.
use zhenyi.Prelude.{
  ℕ, ◌+◌, ◌-◌, ◌%◌, Bool, true, false, List, [], ◌∷◌, ◌++◌, Option, none, some, length, ltb, ◌==◌,
  if◌then◌else◌,
}
use zhenyi.Prelude.Maps.{lookup}
use zhenyi.Prelude.Outcome.{Outcome, ok, err, panic}
use zhenyi.Model.{ActorConfig, Topic}
use zhenyi.Msg.Envelope.{Message, Error, pool_reset}
use zhenyi.Actor.Commands.{CmdType, client_type}
use zhenyi.Gate.Remote.{ℤ, Routing, route_to_remote}
use zhenyi.Gate.Tracker.{Tracker, record_send, complete}

-- What a client sent.
pub record Wire : Type 0 where
  pub msg_id : ℕ
  pub seq_id : ℕ
  pub bytes : List ℕ

-- `msg_list` and `handlers` are the gate's own registrations. `inbox` has what was pushed to the gate,
-- `own` the calls of its handlers, `locals` what was pushed to other actors, `to_client` what
-- channels were given; `held` counts the references that those two took. `recvCount` and `sentCount`,
-- which go with the totals and which the reporter empties, are left out.
pub record Server : Type 0 where
  pub msg_list : List (ℕ × ℕ)
  pub handlers : List (ℕ × ℕ)
  pub inbox : List (CmdType × Message)
  pub own : List (ℕ × Message)
  pub locals : List (ℕ × Message)
  pub to_client : List (ℕ × Message)
  pub held : ℕ
  pub unhandled : ℕ
  pub unrouted : ℕ
  pub routing : Routing
  pub online : ℕ
  pub local_recv : ℕ
  pub recv_total : ℕ
  pub local_sent : ℕ
  pub sent_total : ℕ
  pub first_packet_time : ℕ
  pub tracker : Tracker
  pub global_total_rtt : ℕ
  pub global_count_rtt : ℕ

-- What the gate finds: its id, which channels are open, the router's choice, the candidates for a
-- message id if there is a discoverer, the strategy, the bus, and the hook for messages without a
-- route, with whether it handled them; what the trace hook or the id generator does to a message, and
-- the capacity that `append` gives to so many bytes.
pub record World : Type 0 where
  pub self : ℕ
  pub has_channel : ℕ → Bool
  pub router : Option (Message → Option ℕ)
  pub candidates : Option (ℕ → List ActorConfig)
  pub pick_one : Message → List ActorConfig → ℤ
  pub has_bus : Bool
  pub broadcast : ℕ → Topic → List ℕ → Bool
  pub no_route : Option (Message → Option Message × Bool)
  pub inject : Message → Message
  pub grown : ℕ → ℕ

-- A counter that goes into the total by hundreds.
unfoldable pub count_sent : Server → Server
count_sent s =
    let n = s.local_sent + 1 in
    record s {
      local_sent = n;
      sent_total = if n % 100 == 0 then s.sent_total + 100 else s.sent_total;
    }

unfoldable pub count_recv : Server → Server
count_recv s =
    let n = s.local_recv + 1 in
    record s {
      local_recv = n;
      recv_total = if n % 100 == 0 then s.recv_total + 100 else s.recv_total;
    }

unfoldable pub record_rtt : Option ℕ → Server → Server
record_rtt none s = s
record_rtt (some rtt) s = record s {
  global_total_rtt = s.global_total_rtt + rtt;
  global_count_rtt = s.global_count_rtt + 1;
}

unfoldable pub complete_rtt : Message → ℕ → Server → Server
complete_rtt m now s =
    let r = complete s.tracker m.session_id m.seq_id now in
    record_rtt r.1 (record s { tracker = r.0 })

unfoldable pub give_to_channel : Message → Server → Server
give_to_channel m s = record s {
  to_client = s.to_client ++ ((m.session_id, m) ∷ []);
  held = s.held + 1;
}

unfoldable pub on_accept : Bool → Server → Server × Bool
on_accept is_nil s = if is_nil then (s, false) else (record s { online = s.online + 1 }, true)

-- `OnlineUsers.Add(-1)`, which comes after the channel's `Add(1)`.
unfoldable pub channel_close : Server → Server
channel_close s = record s { online = s.online - 1 }

unfoldable pub local_target : Option (Message → Option ℕ) → Message → Option ℕ
local_target none m = none
local_target (some route) m = route m

unfoldable pub call_own : Option ℕ → Message → Server → Server
call_own none m s = record s { unhandled = s.unhandled + 1 }
call_own (some handle) m s = record s { own = s.own ++ ((handle, m) ∷ []) }

module _ (w : World) (now : ℕ) where
  unfoldable pub send_client : Message → Server → Server
  send_client m s =
      if ltb 0 m.session_id
      then (if w.has_channel m.session_id
          then (if ltb 0 m.seq_id
              then complete_rtt m now (count_sent (give_to_channel m s))
              else count_sent (give_to_channel m s))
          else s)
      else s

  -- On the message that the pool hands out.
  unfoldable pub gen_cli_msg : ℕ → Wire → Message → Message
  gen_cli_msg channel wire pooled = w.inject (record (pool_reset pooled) {
    ref_count = 1;
    msg_id = wire.msg_id;
    seq_id = wire.seq_id;
    payload = record {
      bytes = wire.bytes;
      cap =
          if ltb pooled.payload.cap (length wire.bytes)
          then w.grown (length wire.bytes)
          else pooled.payload.cap;
    };
    session_id = channel;
    from_client = true;
    src_actor = w.self;
  })

  unfoldable pub record_packet : ℕ → Wire → Server → Server
  record_packet channel wire s =
      let timed = record s {
        first_packet_time = if s.first_packet_time == 0 then now else s.first_packet_time;
      } in
      if ltb 0 wire.seq_id
      then record timed { tracker = record_send s.tracker channel wire.seq_id now }
      else timed

  -- `none` is a nil channel; `allowed` is the limiter's answer.
  unfoldable pub on_read : Option ℕ → Bool → Wire → Message → Server → Server
  on_read none allowed wire pooled s = s
  on_read (some channel) allowed wire pooled s =
      let m = gen_cli_msg channel wire pooled in
      let read = record s { inbox = s.inbox ++ ((client_type, m) ∷ []) } in
      if allowed then record_packet channel wire (count_recv read) else s

  -- The hook may answer, with a message of its own.
  unfoldable pub hook_answers : Option Message × Bool → Server → Server
  hook_answers (none, handled) s = s
  hook_answers (some reply, handled) s = if handled then send_client reply s else s

  unfoldable pub ask_hook : Option (Message → Option Message × Bool) → Message → Server → Server
  ask_hook none m s = s
  ask_hook (some hook) m s = hook_answers (hook m) s

  unfoldable pub send_no_route_error : Message → Server → Server
  send_no_route_error m s = ask_hook w.no_route m s

  unfoldable pub no_destination : Message → Server → Server
  no_destination m s = send_no_route_error m (record s { unrouted = s.unrouted + 1 })

  -- A panic is recovered above.
  unfoldable pub after_remote : Outcome Error (Bool × Routing) → Server → Server
  after_remote (ok (true, r)) s = record s { routing = r }
  after_remote (ok (false, r)) s = no_destination r.msg (record s { routing = r })
  after_remote (err e) s = s
  after_remote panic s = s

  unfoldable pub try_remote : Option (ℕ → List ActorConfig) → Message → Server → Server
  try_remote none m s = no_destination m s
  try_remote (some candidates) m s =
      let found = candidates m.msg_id in
      after_remote
        (route_to_remote w.broadcast found w.has_bus (w.pick_one m found)
          (record (s.routing) { msg = m; encoded = [] }))
        s

  unfoldable pub try_local : Option ℕ → Message → Server → Server
  try_local none m s = try_remote w.candidates m s
  try_local (some target) m s =
      if target == w.self
      then try_remote w.candidates m s
      else record s { locals = s.locals ++ ((target, m) ∷ []); held = s.held + 1 }

  unfoldable pub gate_in : Option ℕ → Message → Server → Server
  gate_in (some _) m s = call_own (lookup m.msg_id s.handlers) m s
  gate_in none m s = try_local (local_target w.router m) m s

  unfoldable pub gate_handler : Message → Server → Server
  gate_handler m s = gate_in (lookup m.msg_id s.msg_list) m s

  unfoldable pub handle_client_message : Message → Server → Server
  handle_client_message m s = if w.has_channel m.session_id then gate_handler m s else s

  unfoldable pub handle_resp_message : Message → Server → Server
  handle_resp_message m s = if m.to_client then send_client m s else s

  unfoldable pub handle_to_client_fast_path : Message → Server → Server × Bool
  handle_to_client_fast_path m s = if m.to_client then (send_client m s, true) else (s, false)

-- `Close`, up to the servers below.
unfoldable pub close : Server → Server
close s = record s {
  local_recv = 0;
  recv_total = if ltb 0 s.local_recv then s.recv_total + s.local_recv % 100 else s.recv_total;
  local_sent = 0;
  sent_total = if ltb 0 s.local_sent then s.sent_total + s.local_sent % 100 else s.sent_total;
}
