-- ===== src/Actor/Mailbox/Tests.antt =====
-- The mailbox of zactor/base.go on a queue that is a list.
use zhenyi.Prelude.{
  ℕ, zero, suc, ◌+◌, ◌<◌, ◌≡◌, refl, ap, true, false, List, [], ◌∷◌, ◌++◌, none, some, length, take,
  drop, arith,
}
use zhenyi.Msg.Envelope.{Message, nil_slice}
use zhenyi.Rpc.Slots.{Sender, waiting, fresh_slot}
use zhenyi.Actor.Balance.{one_if}
use zhenyi.Actor.Commands.{Cmd, msg_type, Core, Business}
use zhenyi.Actor.Mailbox.{
  Queue, Mailbox, Step, pushes, marks, posts, takes_batch, handles, run, is_tick,
}
use zhenyi.Actor.Mailbox.Order.{backlog, accounted, pushed, run-accounted}
use zhenyi.Actor.Mailbox.Ticks.{ticks, NoTick, IsCoalesced, run-IsCoalesced}
use zhenyi.Actor.Mailbox.Drain.{drain, Drained, drain-Drained}

take-drop : (n : ℕ) (cs : List Cmd) → cs ≡ take n cs ++ drop n cs
take-drop zero cs = refl
take-drop (suc n) [] = refl
take-drop (suc n) (c ∷ cs) = ap (◌∷◌ c) (take-drop n cs)

take_some : (n : ℕ) (cs : List Cmd) → 0 < n → 0 < length cs → 0 < length (take n cs)
take_some zero cs n_pos pos = absurd (omega arith)
take_some (suc n) [] n_pos pos = absurd (omega arith)
take_some (suc n) (c ∷ cs) n_pos pos = omega arith

abbrev list_queue : Queue
list_queue = record {
  Carrier = List Cmd;
  contents = λ q. q;
  enqueue = λ c q. q ++ (c ∷ []);
  dequeue_batch = λ n q. (take n q, drop n q);
  enqueued = λ c q. refl;
  dequeued = take-drop;
  dequeues = take_some;
}

-- One slot is claimed, with the id `(2 << 16) | 1`.
abbrev pub slots : Sender
slots = record {
  slots = fresh_slot ∷ record { ch = none; version = 2; state = waiting; timestamp = 50 } ∷ [];
  cursor = 1;
  index_mask = 1;
  pool_size = 2;
  abandoned_recycle_delay = 100;
  waiting_force_recycle_ttl = 120000;
  retained = 0;
  released = 0;
}

-- Handler 7 serves message 10; a tick function is registered.
abbrev core : Core
core = record {
  sender = slots;
  client_handlers = [];
  msg_ids = [];
  handlers = (10, 7) ∷ [];
  tick_fns = (1, record { action = 3; interval = 100; last_time = 0 }) ∷ [];
  tick_enabled = true;
  effects = [];
}

abbrev idle : Mailbox list_queue
idle = record {
  mailbox = [];
  batch = [];
  tick_pending = false;
  posting = false;
  released = [];
  fast = [];
  core = core;
}

abbrev user : Business
user = record { returns = λ handler m. some 5; panics = λ action now. false }

abbrev pub envelope : Message
envelope = record {
  session_id = 0;
  rpc_id = 131073;
  trace_id_hi = 0;
  trace_id_lo = 0;
  span_id = 0;
  payload = nil_slice;
  msg_id = 10;
  src_actor = 2;
  tar_actor = 1;
  ref_count = 1;
  seq_id = 0;
  to_client = false;
  from_client = false;
  is_response = false;
}

-- A request and a response, at the pointers 40 and 41.
abbrev request : Cmd
request = record {
  kind = msg_type;
  mail = some (record { ptr = 40; msg = envelope });
  tick_fn = none;
  fn = none;
  task = none;
}

abbrev response : Cmd
response = record request {
  mail = some (record { ptr = 41; msg = record envelope { is_response = true } });
}

abbrev history : List Step
history =
    pushes request
    ∷ marks
    ∷ takes_batch 8
    ∷ pushes response
    ∷ posts
    ∷ handles 1000
    ∷ marks
    ∷ takes_batch 8
    ∷ []

run-accounted_example :
    accounted list_queue user none 40 (run list_queue user none history idle)
    ≡ accounted list_queue user none 40 idle + pushed 40 history
run-accounted_example = run-accounted list_queue user none 40 history idle

idle-IsCoalesced : IsCoalesced list_queue user none idle
unfolding IsCoalesced ticks one_if backlog
idle-IsCoalesced = refl

run-IsCoalesced_example : IsCoalesced list_queue user none (run list_queue user none history idle)
unfolding NoTick is_tick
run-IsCoalesced_example =
    run-IsCoalesced list_queue user none history idle (refl, (_, (_, (refl, _)))) idle-IsCoalesced

-- Two requests are left when the actor is told to stop.
abbrev stopping : Mailbox list_queue
stopping = record idle { mailbox = request ∷ request ∷ [] }

drain-Drained_example :
    Drained list_queue user none
      (λ k. 1000)
      0
      (request ∷ request ∷ [])
      stopping
      (drain list_queue user none (λ k. 1000) (λ i. 1) 3 0 0 stopping)
drain-Drained_example =
    drain-Drained list_queue user none (λ k. 1000) (λ i. 1) (λ i. omega arith) 3 0 0 stopping
      (omega arith)
