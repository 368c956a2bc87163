-- ===== src/Rpc/Reply.antt =====
-- zactor/sender.go: `GetReply`. What the other goroutines do to the slots before each wake of its
-- `select` is a list of functions, and so is which case the `select` takes.
use zhenyi.Prelude.{ℕ, ◌+◌, Bool, List, [], ◌∷◌, none, some, ◌==◌, if◌then◌else◌}
use zhenyi.Rpc.Slots.{
  Sender, SlotState, free, waiting, abandoned, Reply, slot_at, put_slot, index_of,
}

-- The case that fires: the context is done, the timer has run out, or the channel has a message.
pub data Wake : Type 0 where
  done expired : ℕ → Wake
  received : Wake

-- `lost` is the result `nil, false`; `pending` is a call that still waits.
pub data Answer : Type 0 where
  found : Reply → Answer
  lost pending : Answer

unfoldable pub abandon_in : SlotState → Sender → ℕ → ℕ → Sender
abandon_in waiting s idx now =
    put_slot s idx (record (slot_at s idx) { state = abandoned; timestamp = now })
abandon_in free s idx now = s
abandon_in abandoned s idx now = s

-- The compare-and-swap from Waiting to Abandoned, with the time stamp behind it.
unfoldable pub abandon : Sender → ℕ → ℕ → Sender
unfolding abandon_in
abandon s idx now = abandon_in (slot_at s idx).state s idx now

-- A receive that does not block: the message goes to the caller if it answers the call, and the
-- slot is free again; any other is released.
unfoldable pub receive : Sender → ℕ → Sender × Answer
receive s rpc_id =
    let idx = index_of s rpc_id in
    let slot = slot_at s idx in
    let emptied = record slot { ch = none } in
    elim slot.ch [
      | none ↦ (s, pending)
      | some r ↦
          if r.rpc_id == rpc_id
          then (put_slot s idx (record emptied { state = free }), found r)
          else (record (put_slot s idx emptied) { released = s.released + 1 }, pending)
    ]

abbrev pub Round : Type 0
Round = (Sender → Sender) × Wake

-- The loop. A `received` with an empty channel does not fire.
unfoldable pub wait_reply : List Round → ℕ → Sender → Sender × Answer
wait_reply [] rpc_id s = (s, pending)
wait_reply ((others, done now) ∷ rounds) rpc_id s =
    (abandon (others s) (index_of (others s) rpc_id) now, lost)
wait_reply ((others, expired now) ∷ rounds) rpc_id s =
    (abandon (others s) (index_of (others s) rpc_id) now, lost)
wait_reply ((others, received) ∷ rounds) rpc_id s =
    let r = receive (others s) rpc_id in
    let rest = wait_reply rounds rpc_id r.0 in
    elim r.1 [ found m ↦ (r.0, found m) | lost ↦ (r.0, lost) | pending ↦ rest ]

-- A context that is done, a timeout of 0, the fast path, and the loop.
unfoldable pub get_reply : Sender → ℕ → ℕ → Bool → ℕ → List Round → Sender × Answer
get_reply s rpc_id timeout ctx_done now rounds =
    let idx = index_of s rpc_id in
    let r = receive s rpc_id in
    let rest = wait_reply rounds rpc_id r.0 in
    if ctx_done
    then (abandon s idx now, lost)
    else if timeout == 0
    then (abandon s idx now, lost)
    else elim r.1 [ found m ↦ (r.0, found m) | lost ↦ (r.0, lost) | pending ↦ rest ]
