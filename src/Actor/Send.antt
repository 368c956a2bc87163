-- ===== src/Actor/Send.antt =====
-- zactor/helper.go and ziface/imessage.go: how an actor sends a message, to an actor of its process,
-- over the bus, or to a client. One message is followed with its count (Msg/Refs); what is pushed to
-- an actor of the process goes the ways of its `Push` (zactor/base.go), and what its mailbox or one of its
-- RPC slots takes keeps a reference. Business encoders, the worker pool,
-- the byte pool and the bus are arguments; the trace fields of a message are what tracing or the id
-- generator gives.
pub mod Settled
pub mod Posts
pub mod Calls
pub mod Tests
use zhenyi.Prelude.{
  ℕ, ◌+◌, Bool, true, false, List, [], ◌∷◌, ◌++◌, Option, none, some, length, leb, ◌==◌,
  if◌then◌else◌,
}
use zhenyi.Prelude.Outcome.{Outcome, ok, err, panic}
use zhenyi.Model.{ActorConfig, Topic, get_topic}
use zhenyi.Msg.Envelope.{Message, Error, size, marshal_pooled}
use zhenyi.Msg.Refs.{Life, get_message, retain, release}
use zhenyi.Rpc.Slots.{Sender, Reply, set_reply, reply_expected, slot_at, index_of}

-- A business message: its id, and what its encoder gives, `none` for an error.
pub record Body : Type 0 where
  pub msg_id : ℕ
  pub bytes : Option (List ℕ)

pub record Trace : Type 0 where
  pub trace_id_hi : ℕ
  pub trace_id_lo : ℕ

-- What a send finds: the actor's id, the local and the remote actors, whether the worker pool takes
-- the task, the byte pool, the bus and whether it takes the bytes; the slots of the other local actors,
-- which are read and not followed, whether a local actor has a fast path for clients that takes the message, and a name for the message.
pub record Net : Type 0 where
  pub self : ℕ
  pub is_local : ℕ → Bool
  pub others : ℕ → Option ActorConfig
  pub accepted : Bool
  pub buffer : ℕ → List ℕ
  pub has_bus : Bool
  pub broadcast : Topic → List ℕ → Bool
  pub senders_of : ℕ → Sender
  pub takes_client : ℕ → Bool
  pub token : ℕ

-- The message, what went to local mailboxes and to the bus, and the actor's own RPC slots.
pub record Traffic : Type 0 where
  pub life : Life
  pub pushed : List (ℕ × Message)
  pub sent : List (Topic × List ℕ)
  pub sender : Sender

-- `MarshalVTToMsg`, of an encoder whose `SizeVT` is the number of its bytes. After an error the message
-- is only released.
unfoldable pub marshal_vt_to_msg : Body → Message → Option Message
marshal_vt_to_msg body m = elim body.bytes [
  | none ↦ none
  | some bytes ↦
      let cap = if leb (length bytes) m.payload.cap then m.payload.cap else length bytes in
      some (record m { payload = record { bytes = bytes; cap = cap } })
]

unfoldable pub retain_life : Traffic → Traffic
retain_life t = record t { life = retain t.life }

unfoldable pub release_life : Traffic → Traffic
release_life t = record t { life = release t.life }

unfoldable pub with_msg : Message → Traffic → Traffic
with_msg m t = record t { life = record t.life { msg = m } }

-- What `SetReply` does with a reply: it has no slot, or the slot's channel is full, or it takes it.
pub data Fate : Type 0 where
  dropped full taken : Fate

unfoldable pub fate_in : Option Reply → Fate
fate_in none = taken
fate_in (some _) = full

unfoldable pub fate : Sender → Reply → Fate
fate s r =
    if reply_expected s r.rpc_id then fate_in (slot_at s (index_of s r.rpc_id)).ch else dropped

-- The message's count in `SetReply`, and then the `Release` of `Push`.
unfoldable pub count_reply : Fate → Traffic → Traffic
count_reply dropped t = release_life t
count_reply full t = release_life (release_life (retain_life t))
count_reply taken t = release_life (retain_life t)

module _ (net : Net) where
  unfoldable pub slots_of : ℕ → Traffic → Sender
  slots_of target t = if target == net.self then t.sender else net.senders_of target

  unfoldable pub push_reply : ℕ → Traffic → Traffic
  push_reply target t =
      let r : Reply = record { rpc_id = t.life.msg.rpc_id; token = net.token } in
      let slots = slots_of target t in
      count_reply (fate slots r)
        (if target == net.self then record t { sender = set_reply slots r } else t)

  unfoldable pub enqueue_local : ℕ → Traffic → Traffic
  enqueue_local target t = record t { pushed = t.pushed ++ ((target, t.life.msg) ∷ []) }

  -- The target's `Push`, of a message that is retained for it.
  unfoldable pub push : ℕ → Traffic → Traffic
  push target t =
      if t.life.msg.is_response
      then (if t.life.msg.to_client
          then (if net.takes_client target then release_life t else enqueue_local target t)
          else push_reply target t)
      else enqueue_local target t

  unfoldable pub send_remote : Topic → List ℕ → Traffic → Traffic
  send_remote topic bytes t =
      if net.has_bus
      then (if net.broadcast topic bytes
          then record t { sent = t.sent ++ ((topic, bytes) ∷ []) }
          else t)
      else t

  -- The task of `SendMsg` on the worker, which releases the message at its end.
  unfoldable pub finish_task : ActorConfig → Outcome Error (List ℕ) → Traffic → Traffic
  finish_task target (ok bytes) t = release_life (send_remote (get_topic target) bytes t)
  finish_task target (err e) t = release_life t
  finish_task target panic t = release_life t

  unfoldable pub remote_task : ActorConfig → Traffic → Traffic
  remote_task target t =
      finish_task target (marshal_pooled t.life.msg (net.buffer (size t.life.msg))) t

  unfoldable pub push_local : ℕ → Traffic → Traffic
  push_local target t = push target (retain_life t)

  -- A task that the pool does not take is dropped, with what it would have released.
  unfoldable pub hand_over : Bool → ActorConfig → Traffic → Traffic
  hand_over true target t = remote_task target (retain_life t)
  hand_over false target t = retain_life t

  unfoldable pub send_other : Option ActorConfig → Traffic → Traffic
  send_other none t = t
  send_other (some target) t = hand_over net.accepted target t

  -- The deferred release comes last; a task of the worker may also run after it.
  unfoldable pub send_msg : Traffic → Traffic
  send_msg t =
      let target = t.life.msg.tar_actor in
      let marked = with_msg (record (t.life.msg) { span_id = net.self }) t in
      if target == 0
      then release_life t
      else if net.is_local target
      then release_life (push_local target marked)
      else release_life (send_other (net.others target) marked)

  -- `SendMsg(m.Retain())`, then the deferred release of `m`.
  unfoldable pub send_retained : Traffic → Traffic
  send_retained t = release_life (send_msg (retain_life t))

  -- After `GetMessage` and `MarshalVTToMsg`; `fill` sets the other fields.
  unfoldable pub fill_and_send : (Message → Message) → Option Message → Traffic → Traffic
  fill_and_send fill none t = release_life t
  fill_and_send fill (some m) t = send_retained (with_msg (fill m) t)

  unfoldable pub fresh : Traffic → Traffic
  fresh t = record t { life = get_message t.life }

  abbrev pub actor_fields : ℕ → Body → Trace → Message → Message
  actor_fields target body trace m = record m {
    msg_id = body.msg_id;
    tar_actor = target;
    src_actor = net.self;
    trace_id_hi = trace.trace_id_hi;
    trace_id_lo = trace.trace_id_lo;
    span_id = net.self;
  }

  unfoldable pub send_actor : ℕ → Body → Trace → Traffic → Traffic
  send_actor target body trace t =
      let got = fresh t in
      fill_and_send (actor_fields target body trace) (marshal_vt_to_msg body got.life.msg) got

  -- The placeholder, a message of its own, goes to the slots of the actor itself.
  unfoldable pub reply_placeholder : ℕ → ℕ → Traffic → Traffic
  reply_placeholder rpc_id token t = record t {
    sender = set_reply t.sender (record { rpc_id = rpc_id; token = token });
  }

  abbrev pub reply_fields : Message → Body → Message → Message
  reply_fields request body m = record m {
    msg_id = body.msg_id;
    tar_actor = request.src_actor;
    src_actor = net.self;
    is_response = true;
    rpc_id = request.rpc_id;
    trace_id_hi = request.trace_id_hi;
    trace_id_lo = request.trace_id_lo;
    span_id = net.self;
    seq_id = request.seq_id;
  }

  unfoldable pub reply_filled : Message → Body → ℕ → Option Message → Traffic → Traffic
  reply_filled request body token none t = release_life (reply_placeholder request.rpc_id token t)
  reply_filled request body token (some m) t = fill_and_send (reply_fields request body) (some m) t

  -- `token` is the placeholder message.
  unfoldable pub send_actor_reply : Message → Option Body → ℕ → Traffic → Traffic
  send_actor_reply request reply token t = if request.rpc_id == 0 then t else elim reply [
    | none ↦ reply_placeholder request.rpc_id token t
    | some body ↦
        let got = fresh t in
        reply_filled request body token (marshal_vt_to_msg body got.life.msg) got
  ]

  abbrev pub user_fields : ℕ → Body → Trace → Message → Message
  user_fields gate body trace m = record m {
    msg_id = body.msg_id;
    is_response = true;
    to_client = true;
    tar_actor = gate;
    src_actor = net.self;
    trace_id_hi = trace.trace_id_hi;
    trace_id_lo = trace.trace_id_lo;
    span_id = net.self;
  }

  unfoldable pub send_to_client_by_user_id : ℕ → Body → Trace → Traffic → Traffic
  send_to_client_by_user_id gate body trace t =
      let got = fresh t in
      if gate == 0
      then t
      else fill_and_send (user_fields gate body trace) (marshal_vt_to_msg body got.life.msg) got

  abbrev pub client_fields : Message → Body → Message → Message
  client_fields request body m = record m {
    msg_id = body.msg_id;
    is_response = true;
    to_client = true;
    tar_actor = request.src_actor;
    seq_id = request.seq_id;
    src_actor = net.self;
    trace_id_hi = request.trace_id_hi;
    trace_id_lo = request.trace_id_lo;
    span_id = net.self;
    session_id = request.session_id;
  }

  unfoldable pub send_to_client : Message → Body → Traffic → Traffic
  send_to_client request body t =
      let got = fresh t in
      if request.src_actor == 0
      then t
      else fill_and_send (client_fields request body) (marshal_vt_to_msg body got.life.msg) got

  abbrev pub batch_fields : ℕ → List ℕ → Trace → ℕ → ℕ → Message → Message
  batch_fields msg_id bytes trace gate session m = record m {
    msg_id = msg_id;
    payload = record { bytes = bytes; cap = length bytes };
    is_response = true;
    to_client = true;
    tar_actor = gate;
    src_actor = net.self;
    session_id = session;
    seq_id = 0;
    trace_id_hi = trace.trace_id_hi;
    trace_id_lo = trace.trace_id_lo;
    span_id = net.self;
  }

  -- One message of `BatchSendToClients`, whose payload is a copy of its own.
  unfoldable pub send_batch_one : ℕ → List ℕ → Trace → ℕ → ℕ → Traffic → Traffic
  send_batch_one msg_id bytes trace gate session t =
      let got = fresh t in
      send_retained (with_msg (batch_fields msg_id bytes trace gate session got.life.msg) got)
