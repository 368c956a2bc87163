-- ===== src/Actor/Send/Calls.antt =====
-- zactor/helper.go: `CallActor`. The clock's readings, the rounds of the wait, and whether the reply
-- decodes are arguments.
use zhenyi.Prelude.{
  ℕ, ◌≡◌, refl, ap, ◌∙◌, ◌⊎◌, inl, inr, Bool, true, false, List, Option, none, some, ◌==◌,
  if◌then◌else◌, arith,
}
use zhenyi.Prelude.Maps.{insert, lookup, lookup-insert}
use zhenyi.Msg.Envelope.{Message}
use zhenyi.Rpc.Slots.{Sender, Reply, add_sender}
use zhenyi.Rpc.Reply.{Answer, found, lost, pending, Round, get_reply}
use zhenyi.Actor.Breaker.{Breaker, new_breaker, allow, record_success, record_failure}
use zhenyi.Actor.Send.{
  Body, Trace, Net, Traffic, marshal_vt_to_msg, retain_life, release_life, with_msg, send_msg,
  fresh,
}

pub data Code : Type 0 where
  success rpc_err serialize rpc_timeout deserialize : Code

pub record Caller : Type 0 where
  pub traffic : Traffic
  pub breakers : List (ℕ × Breaker)

-- What the call meets: the times of `allow`, `AddSender`, the end of the wait and `recordFailure`,
-- the timeout, the context, the rounds of the wait, and which replies decode.
pub record Conditions : Type 0 where
  pub asked_at : ℕ
  pub claimed_at : ℕ
  pub waited_at : ℕ
  pub failed_at : ℕ
  pub timeout : ℕ
  pub ctx_done : Bool
  pub rounds : List Round
  pub decodes : Reply → Bool

unfoldable pub breaker_in : Option Breaker → Breaker
breaker_in none = new_breaker
breaker_in (some b) = b

unfoldable pub get_circuit_breaker : ℕ → Caller → Breaker
get_circuit_breaker target c = breaker_in (lookup target c.breakers)

unfoldable pub store_breaker : ℕ → Breaker → Caller → Caller
store_breaker target b c = record c { breakers = insert target b c.breakers }

unfoldable pub with_traffic : Traffic → Caller → Caller
with_traffic t c = record c { traffic = t }

module _ (net : Net) (w : Conditions) (target : ℕ) (body : Body) (trace : Trace) where
  abbrev pub request_fields : ℕ → Message → Message
  request_fields rpc_id m = record m {
    msg_id = body.msg_id;
    tar_actor = target;
    src_actor = net.self;
    rpc_id = rpc_id;
    trace_id_hi = trace.trace_id_hi;
    trace_id_lo = trace.trace_id_lo;
    span_id = net.self;
  }

  -- Behind `GetReply`; a call that still waits has no result.
  unfoldable pub conclude : Breaker → Answer → Caller → Caller × Option Code
  conclude b (found r) c =
      let closed = store_breaker target (record_success b) c in
      (
        with_traffic (release_life c.traffic) closed,
        some (if w.decodes r then success else deserialize),
      )
  conclude b lost c =
      let opened = store_breaker target (record_failure b w.failed_at) c in
      (with_traffic (release_life c.traffic) opened, some rpc_timeout)
  conclude b pending c = (c, none)

  unfoldable pub call_with : Breaker → Message → Option ℕ → Sender → Caller → Caller × Option Code
  call_with b m none s c =
      (with_traffic (release_life (record (c.traffic) { sender = s })) c, some rpc_err)
  call_with b m (some rpc_id) s c =
      let claimed = record (c.traffic) { sender = s } in
      let sent = send_msg net (retain_life (with_msg (request_fields rpc_id m) claimed)) in
      let r = get_reply sent.sender rpc_id w.timeout w.ctx_done w.waited_at w.rounds in
      conclude b r.1 (with_traffic (record sent { sender = r.0 }) c)

  unfoldable pub call_filled : Breaker → Option Message → Caller → Caller × Option Code
  call_filled b none c = (with_traffic (release_life c.traffic) c, some serialize)
  call_filled b (some m) c =
      let r = add_sender c.traffic.sender w.claimed_at in call_with b m r.1 r.0 c

  unfoldable pub call_actor : Caller → Caller × Option Code
  call_actor c =
      let r = allow (get_circuit_breaker target c) w.asked_at in
      let asked = store_breaker target r.0 c in
      let got = with_traffic (fresh net c.traffic) asked in
      if r.1
      then call_filled r.0 (marshal_vt_to_msg body got.traffic.life.msg) got
      else (asked, some rpc_err)

  -- The wait that a call comes to, with the slots and the id that it has then, when it comes to one.
  unfoldable pub wait_in : Option Message → Option ℕ → Sender → Traffic → Option (Sender × ℕ)
  wait_in (some m) (some rpc_id) s t =
      let claimed = record t { sender = s } in
      let sent = send_msg net (retain_life (with_msg (request_fields rpc_id m) claimed)) in
      some (sent.sender, rpc_id)
  wait_in (some m) none s t = none
  wait_in none o s t = none

  unfoldable pub wait_of : Caller → Option (Sender × ℕ)
  wait_of c =
      let got = fresh net c.traffic in
      let r = add_sender got.sender w.claimed_at in
      if (allow (get_circuit_breaker target c) w.asked_at).1
      then wait_in (marshal_vt_to_msg body got.life.msg) r.1 r.0 got
      else none

  unfoldable pub answer_of : Sender × ℕ → Answer
  answer_of (s, rpc_id) = (get_reply s rpc_id w.timeout w.ctx_done w.waited_at w.rounds).1

  -- The breaker of the target after an answer, and the result.
  unfoldable pub judged : Answer → Breaker → Breaker × Option Code
  judged (found r) b = (record_success b, some (if w.decodes r then success else deserialize))
  judged lost b = (record_failure b w.failed_at, some rpc_timeout)
  judged pending b = (b, none)

  -- The target has the breaker `b`, and the others have what they had.
  unfoldable pub Stored : Breaker → Caller → Caller → Type 0
  Stored b before after =
      (j : ℕ) → lookup j after.breakers ≡ (if target == j then some b else lookup j before.breakers)

  -- With no wait the call fails and the breaker stays; after a wait both follow the answer.
  unfoldable pub Judged : Option (Sender × ℕ) → Breaker → Caller → Caller × Option Code → Type 0
  Judged none b before (after, code) =
      Stored b before after × ((code ≡ some rpc_err) ⊎ (code ≡ some serialize))
  Judged (some wait) b before (after, code) =
      let j = judged (answer_of wait) b in Stored (j.0) before after × (code ≡ j.1)

  stored :
      (b : Breaker) (c : Caller) (j : ℕ)
      → lookup j (store_breaker target b c).breakers
        ≡ (if target == j then some b else lookup j c.breakers)
  unfolding store_breaker
  stored b c j = lookup-insert target j b c.breakers

  -- A second store under the key takes the place of the first.
  stored_again :
      (a b : Breaker) (before c : Caller)
      → c.breakers ≡ (store_breaker target a before).breakers
      → (j : ℕ)
      → lookup j (store_breaker target b c).breakers
        ≡ (if target == j then some b else lookup j before.breakers)
  stored_again a b before c e j = ground (arith, stored b c j, stored a before j, ap (lookup j) e)

  -- The caller has stored what `allow` left of the breaker.
  abbrev Asked : Breaker → Caller → Caller → Type 0
  Asked b before c = c.breakers ≡ (store_breaker target b before).breakers

  kept_store :
      (b : Breaker) (before c : Caller)
      → Asked b before c
      → (j : ℕ) → lookup j c.breakers ≡ (if target == j then some b else lookup j before.breakers)
  kept_store b before c e j = ap (lookup j) e ∙ stored b before j

  same_store :
      (b : Breaker) (c : Caller)
      → Asked b c (with_traffic (fresh net c.traffic) (store_breaker target b c))
  unfolding with_traffic store_breaker
  same_store b c = refl

  conclude-judged :
      (b : Breaker) (a : Answer) (before c : Caller)
      → Asked b before c
      → Stored ((judged a b).0) before ((conclude b a c).0) × ((conclude b a c).1 ≡ (judged a b).1)
  unfolding conclude Stored judged with_traffic
  conclude-judged b (found r) before c e = (stored_again b (record_success b) before c e, refl)
  conclude-judged b lost before c e =
      (stored_again b (record_failure b w.failed_at) before c e, refl)
  conclude-judged b pending before c e = (kept_store b before c e, refl)

  call_with-Judged :
      (b : Breaker) (m : Message) (o : Option ℕ) (s : Sender) (before c : Caller)
      → Asked b before c
      → Judged (wait_in (some m) o s c.traffic) b before (call_with b m o s c)
  unfolding call_with with_traffic Judged Stored wait_in answer_of
  call_with-Judged b m none s before c e = (kept_store b before c e, inl refl)
  call_with-Judged b m (some rpc_id) s before c e =
      let sent =
        send_msg net
          (retain_life (with_msg (request_fields rpc_id m) (record (c.traffic) { sender = s }))) in
      let r = get_reply sent.sender rpc_id w.timeout w.ctx_done w.waited_at w.rounds in
      conclude-judged b r.1 before (with_traffic (record sent { sender = r.0 }) c) e

  call_filled-Judged :
      (b : Breaker) (o : Option Message) (before c : Caller)
      → Asked b before c
      → let r = add_sender c.traffic.sender w.claimed_at in
        Judged (wait_in o r.1 r.0 c.traffic) b before (call_filled b o c)
  unfolding call_filled with_traffic Judged Stored wait_in
  call_filled-Judged b none before c e = (kept_store b before c e, inr refl)
  call_filled-Judged b (some m) before c e =
      let r = add_sender c.traffic.sender w.claimed_at in call_with-Judged b m r.1 r.0 before c e

  either_way :
      (ok : Bool) (b : Breaker) (c : Caller) (o : Option (Sender × ℕ)) (r : Caller × Option Code)
      → Judged o b c r
      → Judged
          (if ok then o else none)
          b
          c
          (if ok then r else (store_breaker target b c, some rpc_err))
  unfolding Judged Stored
  either_way true b c o r h = h
  either_way false b c o r h = (stored b c, inl refl)

  -- A call that the target's breaker refuses, whose body does not encode or that gets no RPC slot
  -- fails, and the breaker stays as `allow` left it. Any other call waits for its reply, and its result
  -- and the breaker follow what `GetReply` gives it: a reply is a success for the breaker, whether it
  -- decodes or not, and the result tells whether it does; without one the result is a timeout, and a
  -- failure for the breaker; while it still waits there is no result. No other actor's breaker changes.
  pub call_actor-Judged :
      (c : Caller)
      → Judged (wait_of c) ((allow (get_circuit_breaker target c) w.asked_at).0) c (call_actor c)
  unfolding call_actor wait_of fresh with_traffic
  call_actor-Judged c =
      let a = allow (get_circuit_breaker target c) w.asked_at in
      let b = a.0 in
      let got = with_traffic (fresh net c.traffic) (store_breaker target b c) in
      either_way a.1 b c _ _
        (call_filled-Judged b (marshal_vt_to_msg body got.traffic.life.msg) c got (same_store b c))
