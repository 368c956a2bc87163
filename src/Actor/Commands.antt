-- ===== src/Actor/Commands.antt =====
-- zmodel/actor.go and tickfn.go, and zactor/handler.go, dispatcher.go, handlemsg.go and base.go: the
-- commands of an actor, its handlers, and what it does with one command. A message is its pointer
-- with its content. Business functions are numbers; what they return is an argument. Logs, metrics
-- and spans are left out.
use zhenyi.Prelude.{
  ℕ, ◌+◌, Bool, true, false, List, [], ◌∷◌, ◌++◌, Option, none, some, ltb, if◌then◌else◌,
}
use zhenyi.Prelude.Maps.{lookup, insert}
use zhenyi.Msg.Envelope.{Message}
use zhenyi.Rpc.Slots.{Sender, set_reply}

pub record Mail : Type 0 where
  pub ptr : ℕ
  pub msg : Message

-- Milliseconds for `Interval`; the name is the key of the actor's map.
pub record TickFn : Type 0 where
  pub action : ℕ
  pub interval : ℕ
  pub last_time : ℕ

pub data CmdType : Type 0 where
  msg_type tick_type safe_fn_type tick_fn_type client_type async_type : CmdType

-- The pointers of the command may each be nil.
pub record Cmd : Type 0 where
  pub kind : CmdType
  pub mail : Option Mail
  pub tick_fn : Option (ℕ × TickFn)
  pub fn : Option ℕ
  pub task : Option ℕ

-- What the actor calls outside itself.
pub data Effect : Type 0 where
  client_handled dispatched answered : ℕ → ℕ → Effect
  unhandled executed resumed : ℕ → Effect
  ticked : ℕ → ℕ → Effect

-- What handling touches: the RPC slots, the registered functions, and a log of the effects.
pub record Core : Type 0 where
  pub sender : Sender
  pub client_handlers : List (ℕ × ℕ)
  pub msg_ids : List (ℕ × ℕ)
  pub handlers : List (ℕ × ℕ)
  pub tick_fns : List (ℕ × TickFn)
  pub tick_enabled : Bool
  pub effects : List Effect

-- A handler's reply (`none` for nil, or where it panics), and whether a tick function panics.
pub record Business : Type 0 where
  pub returns : ℕ → Mail → Option ℕ
  pub panics : ℕ → ℕ → Bool

unfoldable pub emit : Effect → Core → Core
emit e c = record c { effects = c.effects ++ (e ∷ []) }

unfoldable pub add_msg_id : ℕ → Core → Core
add_msg_id msg_id c = record c { msg_ids = insert msg_id 1 c.msg_ids }

-- A handler that is there stays.
unfoldable pub register_handle : ℕ → ℕ → Core → Core
register_handle msg_id handle c = elim (lookup msg_id c.client_handlers) [
  | some _ ↦ c
  | none ↦ record c {
    client_handlers = insert msg_id handle c.client_handlers;
    msg_ids = insert msg_id 1 c.msg_ids;
  }
]

-- `Dispatcher.Register`: the last one wins.
unfoldable pub register : ℕ → ℕ → Core → Core
register msg_id handler c = record c { handlers = insert msg_id handler c.handlers }

unfoldable pub register_batch : List (ℕ × ℕ) → Core → Core
unfolding register
register_batch [] c = c
register_batch ((msg_id, handler) ∷ rest) c = register_batch rest (register msg_id handler c)

unfoldable pub handle_client_message : Mail → Core → Core
handle_client_message m c = elim (lookup m.msg.msg_id c.client_handlers) [
  | some handle ↦ emit (client_handled handle m.ptr) c
  | none ↦ emit (unhandled m.ptr) c
]

unfoldable pub register_tick_fn : Option (ℕ × TickFn) → Core → Core
register_tick_fn none c = c
register_tick_fn (some (name, f)) c = elim (lookup name c.tick_fns) [
  | some _ ↦ c
  | none ↦ record c { tick_fns = insert name f c.tick_fns; tick_enabled = true }
]

-- `SetReply` on the actor's slots.
unfoldable pub reply_with : Mail → Core → Core
reply_with m c = record c {
  sender = set_reply c.sender (record { rpc_id = m.msg.rpc_id; token = m.ptr });
}

-- The actor's own `HandleRespMessage`, which the gate replaces.
unfoldable pub handle_resp_message : Mail → Core → Core
handle_resp_message m c = if m.msg.is_response then reply_with m c else c

unfoldable pub safe_execute : Option ℕ → Core → Core
safe_execute none c = c
safe_execute (some fn) c = emit (executed fn) c

-- The callback of a finished task; Actor/Async has what it does.
unfoldable pub resume : Option ℕ → Core → Core
resume none c = c
resume (some task) c = emit (resumed task) c

-- The last time of a function that is due, and whether it is called.
unfoldable pub due : ℕ → TickFn → Bool
due now f = if ltb 0 f.interval then (if ltb now f.last_time then false else true) else true

unfoldable pub reschedule : ℕ → TickFn → TickFn
reschedule now f = if ltb 0 f.interval then record f { last_time = now + f.interval } else f

module _ (user : Business) where
  unfoldable pub dispatch : Mail → Core → Core
  dispatch m c = elim (lookup m.msg.msg_id c.handlers) [
    | some handler ↦
        let called = emit (dispatched handler m.ptr) c in
        elim (user.returns handler m) [
          | some reply ↦ emit (answered m.ptr reply) called
          | none ↦ called
        ]
    | none ↦ emit (unhandled m.ptr) c
  ]

  -- `HandleMessage` of an actor that does not bring its own.
  unfoldable pub handle_request : Mail → Core → Core
  handle_request m c = if m.msg.from_client then handle_client_message m c else dispatch m c

  unfoldable pub handle_message : Mail → Core → Core
  handle_message m c =
      if m.msg.is_response
      then (if m.msg.to_client then handle_resp_message m c else reply_with m c)
      else handle_request m c

  -- The loop of `Update`, in the order in which the map is ranged over: the functions that it leaves
  -- and what it called. A panic ends it.
  unfoldable pub update_from : ℕ → List (ℕ × TickFn) → List (ℕ × TickFn) × List Effect
  update_from now [] = ([], [])
  update_from now ((name, f) ∷ rest) =
      let later = update_from now rest in
      if due now f
      then (if user.panics f.action now
          then ((name, reschedule now f) ∷ rest, ticked f.action now ∷ [])
          else ((name, reschedule now f) ∷ later.0, ticked f.action now ∷ later.1))
      else ((name, f) ∷ later.0, later.1)

  unfoldable pub update : ℕ → Core → Core
  update now c =
      let r = update_from now c.tick_fns in record c { tick_fns = r.0; effects = c.effects ++ r.1 }

  -- A nil message panics, which is recovered.
  unfoldable pub handle_mail : Option Mail → Core → Core
  handle_mail none c = c
  handle_mail (some m) c = handle_message m c

  -- The switch of `SafeHandleMessage`.
  unfoldable pub handle_kind : CmdType → Cmd → ℕ → Core → Core
  handle_kind tick_type cmd now c = update now c
  handle_kind msg_type cmd now c = handle_mail cmd.mail c
  handle_kind client_type cmd now c = handle_mail cmd.mail c
  handle_kind safe_fn_type cmd now c = safe_execute cmd.fn c
  handle_kind tick_fn_type cmd now c = register_tick_fn cmd.tick_fn c
  handle_kind async_type cmd now c = resume cmd.task c
