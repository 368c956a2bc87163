-- ===== src/Rpc/Call.antt =====
-- A call from `AddSender` to `GetReply`: who gets which reply.
use native.Mathlib.Nat.{mod-lt}
use zhenyi.Prelude.Bits.{pow_pos}
use zhenyi.Prelude.{
  ℕ, suc, ◌+◌, ◌%◌, ◌^◌, ◌<◌, ◌≡◌, refl, ap, sym, ◌∙◌, ◌≢◌, Bool, true, false, List, [], ◌∷◌, none,
  some, length, length-set, get_or-set_self, get_or-set_ne, arith, ==_refl, ==_ne,
}
use zhenyi.Rpc.Slots.{
  Sender, Slot, free, waiting, Reply, slot_at, put_slot, index_of, version_of, reply_expected,
  send_reply, set_reply, is_waiting, fresh_slot,
}
use zhenyi.Rpc.Reply.{
  done, expired, received, Answer, found, lost, pending, receive, wait_reply, get_reply, Round,
}
use zhenyi.Rpc.Claim.{IsPool, index_of-mod, Claimed}

-- An answer that fits the call.
abbrev Fits : ℕ → Answer → Type 0
Fits rpc_id a = (r : Reply) → a ≡ found r → r.rpc_id ≡ rpc_id

receive-Fits : (s : Sender) (rpc_id : ℕ) → Fits rpc_id (receive s rpc_id).1
unfolding receive
receive-Fits s rpc_id r e = ground arith

wait_reply-Fits :
    (rounds : List Round) (rpc_id : ℕ) (s : Sender) → Fits rpc_id (wait_reply rounds rpc_id s).1
unfolding wait_reply
wait_reply-Fits [] rpc_id s r e = cc
wait_reply-Fits ((others, done now) ∷ rounds) rpc_id s r e = cc
wait_reply-Fits ((others, expired now) ∷ rounds) rpc_id s r e = cc
wait_reply-Fits ((others, received) ∷ rounds) rpc_id s r e =
    let rest = wait_reply-Fits rounds rpc_id (receive (others s) rpc_id).0 r in
    let here = receive-Fits (others s) rpc_id r in ground (arith, rest, here)

-- Some round ends the wait.
unfoldable pub ends : List Round → Bool
ends [] = false
ends ((others, done now) ∷ rounds) = true
ends ((others, expired now) ∷ rounds) = true
ends ((others, received) ∷ rounds) = ends rounds

wait_reply-ends :
    (rounds : List Round) (rpc_id : ℕ) (s : Sender)
    → ends rounds ≡ true
    → (wait_reply rounds rpc_id s).1 ≢ pending
unfolding wait_reply ends
wait_reply-ends [] rpc_id s e q = cc
wait_reply-ends ((others, done now) ∷ rounds) rpc_id s e q = cc
wait_reply-ends ((others, expired now) ∷ rounds) rpc_id s e q = cc
wait_reply-ends ((others, received) ∷ rounds) rpc_id s e q =
    let rest = wait_reply-ends rounds rpc_id (receive (others s) rpc_id).0 e in ground (arith, rest)

-- Whatever the other goroutines do to the pool, a call has returned once a round of its waits
-- brings the end of its context or of its timer.
pub get_reply-returned :
    (s : Sender) (rpc_id timeout : ℕ) (ctx_done : Bool) (now : ℕ) (rounds : List Round)
    → ends rounds ≡ true
    → (get_reply s rpc_id timeout ctx_done now rounds).1 ≢ pending
unfolding get_reply
get_reply-returned s rpc_id timeout ctx_done now rounds e q =
    let rest = wait_reply-ends rounds rpc_id (receive s rpc_id).0 e in ground (arith, rest)

get_reply-Fits :
    (s : Sender) (rpc_id timeout : ℕ) (ctx_done : Bool) (now : ℕ) (rounds : List Round)
    → Fits rpc_id (get_reply s rpc_id timeout ctx_done now rounds).1
unfolding get_reply
get_reply-Fits s rpc_id timeout ctx_done now rounds r e =
    let rest = wait_reply-Fits rounds rpc_id (receive s rpc_id).0 r in
    let here = receive-Fits s rpc_id r in ground (arith, rest, here)

receive_found :
    (s : Sender) (r : Reply)
    → (slot_at s (index_of s r.rpc_id)).ch ≡ some r
    → receive s r.rpc_id ≡ (
      put_slot s
          (index_of s r.rpc_id)
          (record (slot_at s (index_of s r.rpc_id)) { ch = none; state = free }),
      found r,
    )
unfolding receive
receive_found s r e = rw (e, ==_refl r.rpc_id, receive)

-- What `SetReply` makes of a slot that waits for the message, with nothing in its channel.
module _ (k : ℕ) (t : Sender) (r : Reply) (p : IsPool k t)
    (waits : (slot_at t (index_of t r.rpc_id)).state ≡ waiting)
    (fits : (slot_at t (index_of t r.rpc_id)).version ≡ version_of r.rpc_id)
    (empty : (slot_at t (index_of t r.rpc_id)).ch ≡ none) where
  idx : ℕ
  idx = index_of t r.rpc_id

  full_slot : Slot
  full_slot = record (slot_at t (index_of t r.rpc_id)) { ch = some r }

  sent : Sender
  sent = record (put_slot t (index_of t r.rpc_id) full_slot) { retained = t.retained + 1 }

  in_range : idx < length t.slots
  unfolding idx
  in_range =
      let at : index_of t r.rpc_id ≡ r.rpc_id % 2 ^ k = index_of-mod r.rpc_id p in
      rw (at, p.many) (mod-lt r.rpc_id (pow_pos k))

  expected_lem : reply_expected t r.rpc_id ≡ true
  unfolding reply_expected is_waiting
  expected_lem = rw (fits, ==_refl (version_of r.rpc_id), waits)

  send_reply-sent : send_reply t r ≡ sent
  unfolding send_reply sent full_slot
  send_reply-sent = rw (empty, send_reply)

  set_reply-sent : set_reply t r ≡ sent
  unfolding set_reply
  set_reply-sent = rw (expected_lem, send_reply-sent)

  sent_slot : slot_at sent idx ≡ full_slot
  unfolding sent idx
  sent_slot = get_or-set_self t.slots (index_of t r.rpc_id) full_slot fresh_slot in_range

  taken : Sender
  unfolding sent idx
  taken = put_slot sent idx (record (slot_at sent idx) { ch = none; state = free })

  receive-sent : receive sent r.rpc_id ≡ (taken, found r)
  unfolding sent taken idx full_slot
  receive-sent = receive_found sent r (ap (λ o. o.ch) sent_slot)

  taken_slot : slot_at taken idx ≡ record (slot_at t idx) { ch = none; state = free }
  unfolding taken idx sent full_slot
  taken_slot =
      get_or-set_self sent.slots idx (record (slot_at sent idx) { ch = none; state = free })
        fresh_slot (rw (length-set t.slots (index_of t r.rpc_id) full_slot) in_range)
      ∙ ap {B = Slot} (λ o. record o { ch = none; state = free }) sent_slot

  taken_others : (j : ℕ) → j ≢ index_of t r.rpc_id → slot_at taken j ≡ slot_at t j
  unfolding taken idx sent
  taken_others j ne =
      get_or-set_ne sent.slots idx j _ fresh_slot (λ e. ne (sym e))
      ∙ get_or-set_ne t.slots idx j full_slot fresh_slot (λ e. ne (sym e))

get_reply_fast :
    (s u : Sender) (r : Reply) (timeout now : ℕ) (rounds : List Round)
    → receive s r.rpc_id ≡ (u, found r)
    → get_reply s r.rpc_id (suc timeout) false now rounds ≡ (u, found r)
unfolding get_reply
get_reply_fast s u r timeout now rounds e = rw (==_ne (suc timeout) 0 (λ q. absurd (omega arith))) (
    ap {B = Sender × Answer}
      (λ q. elim q.1 [
        | found m ↦ (q.0, found m)
        | lost ↦ (q.0, lost)
        | pending ↦ wait_reply rounds r.rpc_id q.0
      ])
      e)

-- Whatever the other goroutines do to the pool, and however the waits go, a call gets no reply but
-- one that carries its own id.
pub get_reply-found :
    (s : Sender) (rpc_id timeout : ℕ) (ctx_done : Bool) (now : ℕ) (rounds : List Round) (r : Reply)
    → (get_reply s rpc_id timeout ctx_done now rounds).1 ≡ found r
    → r.rpc_id ≡ rpc_id
get_reply-found s rpc_id timeout ctx_done now rounds r e =
    get_reply-Fits s rpc_id timeout ctx_done now rounds r e

-- A call that claimed a slot with an empty channel, with a positive timeout and a context that is not
-- done, and whose reply arrives before anyone else touches the slot, gets that reply; the slot is free
-- and empty again, still with the call's version, the reply was retained once and not released, and no
-- other slot changes.
pub call_answered :
    (k now timeout : ℕ) (s t : Sender) (r : Reply) (later : ℕ) (rounds : List Round)
    → Claimed k now s t r.rpc_id
    → (slot_at s (index_of t r.rpc_id)).ch ≡ none
    → (u : Sender) × (get_reply (set_reply t r) r.rpc_id (suc timeout) false later rounds
        ≡ (u, found r))
      × (slot_at u (index_of t r.rpc_id)
          ≡ record (slot_at t (index_of t r.rpc_id)) { ch = none; state = free })
      × (u.retained ≡ t.retained + 1)
      × (u.released ≡ t.released)
      × ((j : ℕ) → j ≢ index_of t r.rpc_id → slot_at u j ≡ slot_at s j)
unfolding taken sent idx
call_answered k now timeout s t r later rounds c empty =
    let p = c.pool in
    let at : index_of t r.rpc_id ≡ c.idx = index_of-mod r.rpc_id p ∙ c.index in
    let slot = ap (slot_at t) at ∙ c.slot in
    let waits = ap (λ o. o.state) slot in
    let fits = ap (λ o. o.version) slot ∙ sym c.version in
    let blank = ap (λ o. o.ch) slot ∙ (ap (λ i. (slot_at s i).ch) (sym at) ∙ empty) in
    (
      taken k t r p waits fits blank,
      get_reply_fast (set_reply t r) (taken k t r p waits fits blank) r timeout later rounds (
          ap (λ w. receive w r.rpc_id) (set_reply-sent k t r p waits fits blank)
          ∙ receive-sent k t r p waits fits blank),
      taken_slot k t r p waits fits blank,
      refl,
      refl,
      λ j ne. taken_others k t r p waits fits blank j ne ∙ c.others j (λ e. ne (e ∙ sym at)),
    )
