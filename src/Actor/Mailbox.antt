-- ===== src/Actor/Mailbox.antt =====
-- zactor/base.go and group.go: the mailbox of one actor. `Push` with its fast paths, the ticker's two
-- steps, and the loop of `Run`. The queue is another library's: `Queue` says what the code relies
-- on. A step is what one goroutine does between two points where others may come in.
pub mod Order
pub mod Ticks
pub mod Drain
pub mod Tests
use zhenyi.Prelude.{
  ℕ, zero, suc, ◌+◌, ◌≡◌, ◌≤◌, ◌<◌, Bool, true, false, List, [], ◌∷◌, ◌++◌, Option, none, some,
  length, if◌then◌else◌, ltb, leb, ◌==◌,
}
use zhenyi.Actor.Commands.{
  Mail, CmdType, msg_type, tick_type, safe_fn_type, tick_fn_type, client_type, async_type, Cmd,
  Core, Business, reply_with, handle_kind,
}

-- A first-in first-out queue: what it holds, oldest first.
pub record Queue : Type 1 where
  pub Carrier : Type 0
  pub contents : Carrier → List Cmd
  pub enqueue : Cmd → Carrier → Carrier
  pub dequeue_batch : ℕ → Carrier → List Cmd × Carrier
  pub enqueued : (c : Cmd) (q : Carrier) → contents (enqueue c q) ≡ contents q ++ (c ∷ [])
  pub dequeued :
      (n : ℕ) (q : Carrier) → contents q ≡ (dequeue_batch n q).0 ++ contents ((dequeue_batch n q).1)
  pub dequeues :
      (n : ℕ) (q : Carrier) → 0 < n → 0 < length (contents q) → 0 < length ((dequeue_batch n q).0)

module _ (queue : Queue) where
  -- `batch` is what the loop has taken and not yet handled, `posting` that the ticker stands between
  -- its mark and its `Push`; `released` logs the calls of `Release` on commands' messages.
  pub record Mailbox : Type 0 where
    pub mailbox : queue.Carrier
    pub batch : List Cmd
    pub tick_pending : Bool
    pub posting : Bool
    pub released : List ℕ
    pub fast : List ℕ
    pub core : Core

abbrev pub tick_cmd : Cmd
tick_cmd = record { kind = tick_type; mail = none; tick_fn = none; fn = none; task = none }

unfoldable pub is_tick : CmdType → Bool
is_tick tick_type = true
is_tick msg_type = false
is_tick safe_fn_type = false
is_tick tick_fn_type = false
is_tick client_type = false
is_tick async_type = false

unfoldable pub is_msg : CmdType → Bool
is_msg msg_type = true
is_msg tick_type = false
is_msg safe_fn_type = false
is_msg tick_fn_type = false
is_msg client_type = false
is_msg async_type = false

-- `ActorCmd.Release`
unfoldable pub release_cmd : Option Mail → List ℕ → List ℕ
release_cmd none log = log
release_cmd (some m) log = log ++ (m.ptr ∷ [])

-- `to_client` is the fast path of an actor that has one: whether it handles the message.
module _ (queue : Queue) (user : Business) (to_client : Option (Mail → Bool)) where
  unfoldable pub enqueue_cmd : Cmd → Mailbox queue → Mailbox queue
  enqueue_cmd cmd a = record a { mailbox = queue.enqueue cmd a.mailbox }

  unfoldable pub takes : Mail → Bool
  takes m = elim to_client [ none ↦ false | some handles ↦ handles m ]

  unfoldable pub push_response : Mail → Cmd → Mailbox queue → Mailbox queue
  push_response m cmd a =
      if m.msg.to_client
      then (if takes m
          then record a { fast = a.fast ++ (m.ptr ∷ []); released = a.released ++ (m.ptr ∷ []) }
          else enqueue_cmd cmd a)
      else record a { core = reply_with m a.core; released = a.released ++ (m.ptr ∷ []) }

  unfoldable pub push_mail : Option Mail → Cmd → Mailbox queue → Mailbox queue
  push_mail none cmd a = enqueue_cmd cmd a
  push_mail (some m) cmd a = if m.msg.is_response then push_response m cmd a else enqueue_cmd cmd a

  unfoldable pub push : Cmd → Mailbox queue → Mailbox queue
  push cmd a = if is_msg cmd.kind then push_mail cmd.mail cmd a else enqueue_cmd cmd a

  -- The ticker: `HasTickFns`, then the compare-and-swap of `MarkTickPending`.
  unfoldable pub mark_tick : Mailbox queue → Mailbox queue
  mark_tick a =
      if a.posting
      then a
      else if a.core.tick_enabled
      then (if a.tick_pending then a else record a { tick_pending = true; posting = true })
      else a

  unfoldable pub post_tick : Mailbox queue → Mailbox queue
  post_tick a = if a.posting then push tick_cmd (record a { posting = false }) else a

  -- `SafeHandleMessage`
  unfoldable pub safe_handle_message : Cmd → ℕ → Mailbox queue → Mailbox queue
  safe_handle_message cmd now a = record a {
    tick_pending = if is_tick cmd.kind then false else a.tick_pending;
    core = handle_kind user cmd.kind cmd now a.core;
  }

  -- One round of the inner loop of `Run`, on the batch that it is given.
  unfoldable pub handle_in : ℕ → List Cmd → Mailbox queue → Mailbox queue
  handle_in now [] a = a
  handle_in now (cmd ∷ rest) a =
      let handled = safe_handle_message cmd now (record a { batch = rest }) in
      record handled { released = release_cmd cmd.mail handled.released }

  unfoldable pub handle_next : ℕ → Mailbox queue → Mailbox queue
  handle_next now a = handle_in now a.batch a

  -- `DequeueBatch`, which comes when the last batch is done.
  unfoldable pub take_in : ℕ → List Cmd → Mailbox queue → Mailbox queue
  take_in size [] a =
      let r = queue.dequeue_batch size a.mailbox in record a { batch = r.0; mailbox = r.1 }
  take_in size (_ ∷ _) a = a

  unfoldable pub take_batch : ℕ → Mailbox queue → Mailbox queue
  take_batch size a = take_in size a.batch a

pub data Step : Type 0 where
  pushes : Cmd → Step
  marks posts : Step
  takes_batch handles : ℕ → Step

module _ (queue : Queue) (user : Business) (to_client : Option (Mail → Bool)) where
  unfoldable pub step : Step → Mailbox queue → Mailbox queue
  step (pushes cmd) a = push queue user to_client cmd a
  step marks a = mark_tick queue user to_client a
  step posts a = post_tick queue user to_client a
  step (takes_batch size) a = take_batch queue user to_client size a
  step (handles now) a = handle_next queue user to_client now a

  unfoldable pub run : List Step → Mailbox queue → Mailbox queue
  unfolding step
  run [] a = a
  run (s ∷ ss) a = run ss (step s a)
