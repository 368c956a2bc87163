-- ===== src/Actor/Send/Settled.antt =====
-- zactor/helper.go: who holds a message after it was sent.
use zhenyi.Prelude.{
  ℕ, ◌+◌, ◌<◌, ◌≡◌, refl, sym, subst, ◌∙◌, Bool, true, false, List, Option, none, some, ◌==◌,
  if◌then◌else◌, arith, length, leb, if_elim_both, if_elim, ap,
}
use zhenyi.Prelude.Outcome.{Outcome, ok, err, panic}
use zhenyi.Model.{ActorConfig, Topic, get_topic}
use zhenyi.Msg.Envelope.{Message, Slice, Error, size, marshal_pooled, pool_reset}
use zhenyi.Msg.Refs.{Life, count, get_message, retain, release, retain-count, release-count}
use zhenyi.Rpc.Slots.{Sender, Reply, set_reply}
use zhenyi.Actor.Send.{
  Net, Traffic, marshal_vt_to_msg, retain_life, release_life, with_msg, send_remote, finish_task,
  remote_task, push_local, hand_over, send_other, send_msg, send_retained, fill_and_send, fresh,
  reply_fields, reply_filled, reply_placeholder, Fate, dropped, full, taken, fate, count_reply,
  slots_of, push_reply, enqueue_local, push,
}

-- The count of a message, how often it went to the pool, and its double releases.
unfoldable pub Holds : ℕ → ℕ → ℕ → Life → Type 0
Holds n p d l = (count l ≡ n) × (l.pooled ≡ p) × (l.double_releases ≡ d)

retain-Holds : (n p d : ℕ) (l : Life) → n < 8 → Holds n p d l → Holds (n + 1) p d (retain l)
unfolding Holds
retain-Holds n p d l small (c, q, e) = ground (arith, retain-count l)

release-Holds :
    (n p d : ℕ) (l : Life) → n < 8 → 0 < n → Holds (n + 1) p d l → Holds n p d (release l)
unfolding Holds
release-Holds n p d l small pos (c, q, e) = ground (arith, release-count l)

last-Holds : (p d : ℕ) (l : Life) → Holds 1 p d l → Holds 0 (p + 1) d (release l)
unfolding Holds
last-Holds p d l (c, q, e) = ground (arith, release-count l)

-- What becomes of a message with one owner: it stays with whom it was left to, or is pooled.
unfoldable pub Settled : ℕ → Life → Life → Type 0
Settled k before after =
    Holds k (if k == 0 then before.pooled + 1 else before.pooled) before.double_releases after

-- Where a message goes that the encoder gave, or did not.
unfoldable pub destination : ℕ → Option (List ℕ) → ℕ
destination target none = 0
destination target (some bytes) = target

-- What a message is to the `Push` of an actor.
pub data Kind : Type 0 where
  plain to_clients : Kind
  replies : ℕ → Kind

unfoldable pub kind_of : Message → Kind
kind_of m = if m.is_response then (if m.to_client then to_clients else replies m.rpc_id) else plain

unfoldable pub kept_reply : Fate → ℕ
kept_reply dropped = 0
kept_reply full = 0
kept_reply taken = 1

module _ (net : Net) where
  -- The references that stay behind: the local mailbox's or slot's, or that of a task that the worker pool did
  -- not take.
  unfoldable pub kept_other : Option ActorConfig → ℕ
  kept_other none = 0
  kept_other (some _) = if net.accepted then 0 else 1

  unfoldable pub kept_local : Sender → ℕ → Kind → ℕ
  kept_local own target plain = 1
  kept_local own target to_clients = if net.takes_client target then 0 else 1
  kept_local own target (replies rpc_id) =
      let slots = if target == net.self then own else net.senders_of target in
      kept_reply (fate slots (record { rpc_id = rpc_id; token = net.token }))

  unfoldable pub kept : Sender → ℕ → Kind → ℕ
  kept own target kind =
      if target == 0
      then 0
      else if net.is_local target
      then kept_local own target kind
      else kept_other (net.others target)

  send_remote-life :
      (topic : Topic) (bytes : List ℕ) (t : Traffic) → (send_remote net topic bytes t).life ≡ t.life
  unfolding send_remote
  send_remote-life topic bytes t = ground arith

  task_over :
      (r : Outcome Error (List ℕ)) (target : ActorConfig) (p d : ℕ) (t : Traffic)
      → Holds 3 p d t.life
      → Holds 2 p d (finish_task net target r t).life
  unfolding finish_task release_life
  task_over (ok bytes) target p d t h =
      release-Holds 2 p d (send_remote net (get_topic target) bytes t).life (omega arith)
        (omega arith) (subst (Holds 3 p d) (sym (send_remote-life (get_topic target) bytes t)) h)
  task_over (err e) target p d t h = release-Holds 2 p d t.life (omega arith) (omega arith) h
  task_over panic target p d t h = release-Holds 2 p d t.life (omega arith) (omega arith) h

  hand_over-Holds :
      (b : Bool) (target : ActorConfig) (p d : ℕ) (t : Traffic)
      → Holds 2 p d t.life
      → Holds (2 + (if b then 0 else 1)) p d (hand_over net b target t).life
  unfolding hand_over remote_task retain_life
  hand_over-Holds true target p d t h =
      let u = retain_life t in
      task_over (marshal_pooled u.life.msg (net.buffer (size u.life.msg))) target p d u
        (retain-Holds 2 p d t.life (omega arith) h)
  hand_over-Holds false target p d t h = retain-Holds 2 p d t.life (omega arith) h

  send_other-Holds :
      (o : Option ActorConfig) (p d : ℕ) (t : Traffic)
      → Holds 2 p d t.life
      → Holds (2 + kept_other o) p d (send_other net o t).life
  unfolding send_other kept_other
  send_other-Holds none p d t h = h
  send_other-Holds (some target) p d t h = hand_over-Holds net.accepted target p d t h

  -- A release that cannot be the last.
  drop_one :
      (k p d : ℕ) (t : Traffic)
      → k < 2
      → Holds (2 + k) p d t.life
      → Holds (1 + k) p d (release_life t).life
  unfolding release_life
  drop_one k p d t small h =
      release-Holds (1 + k) p d t.life (omega arith) (omega arith)
        (subst (λ n. Holds n p d t.life) (omega arith) h)

  kept_reply-small : (v : Fate) → kept_reply v < 2
  unfolding kept_reply
  kept_reply-small dropped = omega arith
  kept_reply-small full = omega arith
  kept_reply-small taken = omega arith

  kept_other-small : (o : Option ActorConfig) → kept_other o < 2
  unfolding kept_other
  kept_other-small none = omega arith
  kept_other-small (some target) = ground arith

  count_reply-Holds :
      (v : Fate) (p d : ℕ) (t : Traffic)
      → Holds 3 p d t.life
      → Holds (2 + kept_reply v) p d (count_reply v t).life
  unfolding count_reply release_life retain_life kept_reply
  count_reply-Holds dropped p d t h = release-Holds 2 p d t.life (omega arith) (omega arith) h
  count_reply-Holds full p d t h =
      release-Holds 2 p d (release (retain t.life)) (omega arith) (omega arith) (
        release-Holds 3 p d (retain t.life) (omega arith) (omega arith)
          (retain-Holds 3 p d t.life (omega arith) h))
  count_reply-Holds taken p d t h =
      release-Holds 3 p d (retain t.life) (omega arith) (omega arith)
        (retain-Holds 3 p d t.life (omega arith) h)

  push_reply-Holds :
      (target p d : ℕ) (t : Traffic)
      → Holds 3 p d t.life
      → Holds
          (2 + kept_local t.sender target (replies t.life.msg.rpc_id))
          p
          d
          (push_reply net target t).life
  unfolding push_reply slots_of kept_local
  push_reply-Holds target p d t h =
      let r : Reply = record { rpc_id = t.life.msg.rpc_id; token = net.token } in
      let slots = if target == net.self then t.sender else net.senders_of target in
      let told : Traffic = record t { sender = set_reply slots r } in
      count_reply-Holds (fate slots r) p d (if target == net.self then told else t)
        (if_elim {A = Traffic} (λ u. Holds 3 p d u.life) (target == net.self) (λ _. h) (λ _. h))

  push_local-Holds :
      (target p d : ℕ) (t : Traffic)
      → Holds 2 p d t.life
      → Holds
          (2 + kept_local t.sender target (kind_of t.life.msg))
          p
          d
          (push_local net target t).life
  unfolding push_local push enqueue_local kind_of kept_local retain_life retain release_life
  push_local-Holds target p d t h =
      let held = retain_life t in
      let three = retain-Holds 2 p d t.life (omega arith) h in
      let Good : Traffic → Kind → Type 0 =
        λ u k. Holds (2 + kept_local t.sender target k) p d u.life in
      if_elim_both Good t.life.msg.is_response
        (λ _.
          if_elim_both Good t.life.msg.to_client
            (λ _.
              if_elim_both {A = Traffic} (λ u n. Holds (2 + n) p d u.life) (net.takes_client target)
                (λ _. release-Holds 2 p d held.life (omega arith) (omega arith) three) (λ _. three))
            (λ _. push_reply-Holds target p d held three))
        (λ _. three)

  kept_local-small : (own : Sender) (target : ℕ) (k : Kind) → kept_local own target k < 2
  unfolding kept_local
  kept_local-small own target plain = omega arith
  kept_local-small own target to_clients = ground arith
  kept_local-small own target (replies rpc_id) = kept_reply-small _

  marked-Holds :
      (span n p d : ℕ) (t : Traffic)
      → Holds n p d t.life
      → Holds n p d (with_msg (record (t.life.msg) { span_id = span }) t).life
  unfolding with_msg Holds
  marked-Holds span n p d t h = h

  send_msg-Holds :
      (p d : ℕ) (t : Traffic)
      → Holds 2 p d t.life
      → Holds
          (1 + kept t.sender t.life.msg.tar_actor (kind_of t.life.msg))
          p
          d
          (send_msg net t).life
  unfolding send_msg kept with_msg kind_of
  send_msg-Holds p d t h =
      let target = t.life.msg.tar_actor in
      let marked = with_msg (record (t.life.msg) { span_id = net.self }) t in
      let h' = marked-Holds net.self 2 p d t h in
      let Good : Traffic → ℕ → Type 0 = λ u k. Holds (1 + k) p d u.life in
      if_elim_both Good (target == 0) (λ _. drop_one 0 p d t (omega arith) h)
        (λ _.
          if_elim_both Good (net.is_local target)
            (λ _.
              let kind = kind_of t.life.msg in
              drop_one (kept_local t.sender target kind) p d (push_local net target marked)
                (kept_local-small t.sender target kind) (push_local-Holds target p d marked h'))
            (λ _.
              let o = net.others target in
              drop_one (kept_other o) p d (send_other net o marked) (kept_other-small o)
                (send_other-Holds o p d marked h')))

  kept-small : (own : Sender) (target : ℕ) (k : Kind) → kept own target k < 2
  unfolding kept
  kept-small own target k =
      ground (arith, kept_other-small (net.others target), kept_local-small own target k)

  last_release :
      (k : ℕ) (before l : Life)
      → k < 2
      → Holds (1 + k) before.pooled before.double_releases l
      → Settled k before (release l)
  unfolding Settled Holds
  last_release k before l small (c, q, e) = ground (arith, release-count l)

  pub send_retained-Settled :
      (before : Life) (t : Traffic)
      → Holds 1 before.pooled before.double_releases t.life
      → Settled
          (kept t.sender t.life.msg.tar_actor (kind_of t.life.msg))
          before
          (send_retained net t).life
  unfolding send_retained release_life retain_life retain kind_of
  send_retained-Settled before t h =
      let two = retain-Holds 1 before.pooled before.double_releases t.life (omega arith) h in
      let k = kept t.sender t.life.msg.tar_actor (kind_of t.life.msg) in
      last_release k before (send_msg net (retain_life t)).life
        (kept-small t.sender t.life.msg.tar_actor (kind_of t.life.msg))
        (send_msg-Holds before.pooled before.double_releases (retain_life t) two)

  counted_in :
      (fill : Message → Message) (m : Message) (before : Life) (t : Traffic)
      → ((x : Message) → (fill x).ref_count ≡ x.ref_count)
      → m.ref_count ≡ t.life.msg.ref_count
      → Holds 1 before.pooled before.double_releases t.life
      → Holds 1 before.pooled before.double_releases (with_msg (fill m) t).life
  unfolding Holds with_msg
  counted_in fill m before t counts same (c, q, e) = (counts m ∙ (same ∙ c), q, e)

  pub filled_in :
      (fill : Message → Message) (target : ℕ) (kind : Kind) (msg_id : ℕ) (o : Option (List ℕ))
      (before : Life) (t : Traffic)
      → ((x : Message) → (fill x).ref_count ≡ x.ref_count)
      → ((x : Message) → (fill x).tar_actor ≡ target)
      → ((b : Slice) → kind_of (fill (record (t.life.msg) { payload = b })) ≡ kind)
      → Holds 1 before.pooled before.double_releases t.life
      → Settled
          (kept t.sender (destination target o) kind)
          before
          (fill_and_send net fill
            (marshal_vt_to_msg (record { msg_id = msg_id; bytes = o }) t.life.msg)
            t).life
  unfolding fill_and_send marshal_vt_to_msg destination release_life with_msg kept
  filled_in fill target kind msg_id none before t counts aims kinds h =
      last_release 0 before t.life (omega arith) h
  filled_in fill target kind msg_id (some bytes) before t counts aims kinds h =
      let cap =
        if leb (length bytes) t.life.msg.payload.cap
        then t.life.msg.payload.cap
        else length bytes in
      let m = record (t.life.msg) { payload = record { bytes = bytes; cap = cap } } in
      let sent = with_msg (fill m) t in
      let done = send_retained-Settled before sent (counted_in fill m before t counts refl h) in
      subst (λ k. Settled (kept t.sender target k) before (send_retained net sent).life)
        (kinds m.payload)
        (subst
          (λ g. Settled (kept t.sender g (kind_of (fill m))) before (send_retained net sent).life)
          (aims m) done)

  pub fresh-Holds : (t : Traffic) → Holds 1 t.life.pooled t.life.double_releases (fresh net t).life
  unfolding fresh get_message pool_reset Holds
  fresh-Holds t = (refl, refl, refl)

  pub reply_filled-Settled :
      (request : Message) (token msg_id : ℕ) (o : Option (List ℕ)) (before : Life) (t : Traffic)
      → t.life.msg.to_client ≡ false
      → Holds 1 before.pooled before.double_releases t.life
      → Settled
          (kept t.sender (destination request.src_actor o) (replies request.rpc_id))
          before
          (reply_filled net request
            (record { msg_id = msg_id; bytes = o })
            token
            (marshal_vt_to_msg (record { msg_id = msg_id; bytes = o }) t.life.msg)
            t).life
  unfolding reply_filled reply_placeholder marshal_vt_to_msg destination release_life kept kind_of
  reply_filled-Settled request token msg_id none before t inner h =
      last_release 0 before t.life (omega arith) h
  reply_filled-Settled request token msg_id (some bytes) before t inner h =
      filled_in (reply_fields net request (record { msg_id = msg_id; bytes = some bytes }))
        request.src_actor (replies request.rpc_id) msg_id (some bytes) before t (λ x. refl)
        (λ x. refl) (λ b. ap (λ c. if c then to_clients else replies request.rpc_id) inner) h
