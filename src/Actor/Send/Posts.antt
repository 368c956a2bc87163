-- ===== src/Actor/Send/Posts.antt =====
-- zactor/helper.go: every operation that sends gives its message back.
use zhenyi.Prelude.{
  ℕ, ◌≡◌, refl, Bool, true, false, List, Option, none, some, ◌==◌, if◌then◌else◌, if_elim,
  if_elim_both,
}
use zhenyi.Msg.Envelope.{Message, pool_reset}
use zhenyi.Msg.Refs.{Life, get_message}
use zhenyi.Actor.Send.{
  Body, Trace, Net, Traffic, with_msg, fresh, actor_fields, user_fields, client_fields,
  batch_fields, send_actor, reply_placeholder, send_actor_reply, send_to_client_by_user_id,
  send_to_client, send_batch_one,
}
use zhenyi.Actor.Send.Settled.{
  Holds, Settled, Kind, plain, to_clients, replies, kind_of, kept, destination, filled_in,
  reply_filled-Settled, fresh-Holds, send_retained-Settled,
}

-- One call of an operation that sends.
pub data Post : Type 0 where
  to_actor : ℕ → Body → Trace → Post
  reply_to : Message → Option Body → ℕ → Post
  to_user : ℕ → Body → Trace → Post
  to_client_of : Message → Body → Post
  in_batch : ℕ → List ℕ → Trace → ℕ → ℕ → Post

unfoldable pub post : Net → Post → Traffic → Traffic
post net (to_actor target body trace) t = send_actor net target body trace t
post net (reply_to request reply token) t = send_actor_reply net request reply token t
post net (to_user gate body trace) t = send_to_client_by_user_id net gate body trace t
post net (to_client_of request body) t = send_to_client net request body t
post net (in_batch msg_id bytes trace gate session) t =
    send_batch_one net msg_id bytes trace gate session t

-- Whether the operation takes a message from the pool, and where that goes: 0 stands for nowhere.
unfoldable pub acquires : Post → Bool
acquires (to_actor target body trace) = true
acquires (reply_to request none token) = false
acquires (reply_to request (some body) token) = if request.rpc_id == 0 then false else true
acquires (to_user gate body trace) = if gate == 0 then false else true
acquires (to_client_of request body) = if request.src_actor == 0 then false else true
acquires (in_batch msg_id bytes trace gate session) = true

unfoldable pub goes_to : Post → ℕ
goes_to (to_actor target body trace) = destination target body.bytes
goes_to (reply_to request none token) = 0
goes_to (reply_to request (some body) token) = destination request.src_actor body.bytes
goes_to (to_user gate body trace) = destination gate body.bytes
goes_to (to_client_of request body) = destination request.src_actor body.bytes
goes_to (in_batch msg_id bytes trace gate session) = gate

-- What its message is to an actor of the process.
unfoldable pub kind_in : Post → Kind
kind_in (to_actor target body trace) = plain
kind_in (reply_to request reply token) = replies request.rpc_id
kind_in (to_user gate body trace) = to_clients
kind_in (to_client_of request body) = to_clients
kind_in (in_batch msg_id bytes trace gate session) = to_clients

-- A message that was taken has as many owners as places that it was left at, and went to the pool if
-- there is none.
unfoldable pub Given : Bool → ℕ → Life → Life → Type 0
Given true k before after = Settled k before after
Given false k before after = after ≡ before

module _ (net : Net) where
  send_actor-Settled :
      (target : ℕ) (body : Body) (trace : Trace) (t : Traffic)
      → Settled
          (kept net t.sender (destination target body.bytes) plain)
          t.life
          (send_actor net target body trace t).life
  unfolding send_actor fresh get_message pool_reset kind_of
  send_actor-Settled target body trace t =
      filled_in net (actor_fields net target body trace) target plain body.msg_id body.bytes t.life
        (fresh net t) (λ x. refl) (λ x. refl) (λ b. refl) (fresh-Holds net t)

  reply-Given :
      (request : Message) (body : Body) (token : ℕ) (t : Traffic)
      → Given
          (if request.rpc_id == 0 then false else true)
          (kept net t.sender (destination request.src_actor body.bytes) (replies request.rpc_id))
          t.life
          (send_actor_reply net request (some body) token t).life
  unfolding send_actor_reply Given fresh get_message pool_reset kind_of
  reply-Given request body token t =
      let k =
        kept net t.sender (destination request.src_actor body.bytes) (replies request.rpc_id) in
      if_elim_both {A = Traffic} (λ u b. Given b k t.life u.life) (request.rpc_id == 0) (λ _. refl)
        (λ _.
          reply_filled-Settled net request token body.msg_id body.bytes t.life (fresh net t) refl
            (fresh-Holds net t))

  no_reply-life :
      (request : Message) (token : ℕ) (t : Traffic)
      → (send_actor_reply net request none token t).life ≡ t.life
  unfolding send_actor_reply reply_placeholder
  no_reply-life request token t =
      if_elim {A = Traffic} (λ u. u.life ≡ t.life) (request.rpc_id == 0) (λ _. refl) (λ _. refl)

  to_user-Given :
      (gate : ℕ) (body : Body) (trace : Trace) (t : Traffic)
      → Given
          (if gate == 0 then false else true)
          (kept net t.sender (destination gate body.bytes) to_clients)
          t.life
          (send_to_client_by_user_id net gate body trace t).life
  unfolding send_to_client_by_user_id Given fresh get_message pool_reset kind_of
  to_user-Given gate body trace t =
      let k = kept net t.sender (destination gate body.bytes) to_clients in
      if_elim_both {A = Traffic} (λ u b. Given b k t.life u.life) (gate == 0) (λ _. refl)
        (λ _.
          filled_in net (user_fields net gate body trace) gate to_clients body.msg_id body.bytes
            t.life (fresh net t) (λ x. refl) (λ x. refl) (λ b. refl) (fresh-Holds net t))

  to_client-Given :
      (request : Message) (body : Body) (t : Traffic)
      → Given
          (if request.src_actor == 0 then false else true)
          (kept net t.sender (destination request.src_actor body.bytes) to_clients)
          t.life
          (send_to_client net request body t).life
  unfolding send_to_client Given fresh get_message pool_reset kind_of
  to_client-Given request body t =
      let k = kept net t.sender (destination request.src_actor body.bytes) to_clients in
      if_elim_both {A = Traffic} (λ u b. Given b k t.life u.life) (request.src_actor == 0)
        (λ _. refl)
        (λ _.
          filled_in net (client_fields net request body) request.src_actor to_clients body.msg_id
            body.bytes t.life (fresh net t) (λ x. refl) (λ x. refl) (λ b. refl) (fresh-Holds net t))

  batch_one-Settled :
      (msg_id : ℕ) (bytes : List ℕ) (trace : Trace) (gate session : ℕ) (t : Traffic)
      → Settled
          (kept net t.sender gate to_clients)
          t.life
          (send_batch_one net msg_id bytes trace gate session t).life
  unfolding send_batch_one with_msg Holds fresh get_message pool_reset kind_of
  batch_one-Settled msg_id bytes trace gate session t =
      let got = fresh net t in
      send_retained-Settled net t.life
        (with_msg (batch_fields net msg_id bytes trace gate session got.life.msg) got)
        (fresh-Holds net t)

-- For `SendActor`, `SendActorReply`, `SendToClientByUserId`, `SendToClient` and each message of
-- `BatchSendToClients`, on every path, encoder errors and unknown targets included: a message that the
-- operation took from the pool is back there, released once, unless it went to an actor of the process
-- whose mailbox or RPC slot took it, or was to go over the bus and the worker pool did not take the task;
-- then exactly one reference is left. An operation that took no message leaves it alone. The placeholder
-- that `SendActorReply` gives to its own slots for a nil or failing reply is not followed.
pub post-Given :
    (net : Net) (q : Post) (t : Traffic)
    → Given (acquires q) (kept net t.sender (goes_to q) (kind_in q)) t.life (post net q t).life
unfolding post acquires goes_to kind_in Given
post-Given net (to_actor target body trace) t = send_actor-Settled net target body trace t
post-Given net (reply_to request none token) t = no_reply-life net request token t
post-Given net (reply_to request (some body) token) t = reply-Given net request body token t
post-Given net (to_user gate body trace) t = to_user-Given net gate body trace t
post-Given net (to_client_of request body) t = to_client-Given net request body t
post-Given net (in_batch msg_id bytes trace gate session) t =
    batch_one-Settled net msg_id bytes trace gate session t
