-- ===== src/Rpc/Tests.antt =====
-- The slots of zactor/sender.go on a pool of two.
use zhenyi.Prelude.{
  ◌+◌, length, ℕ, zero, suc, ◌^◌, ◌≡◌, refl, ◌<◌, ◌≢◌, ◌⊎◌, true, false, List, [], ◌∷◌, none, some,
  arith,
}
use zhenyi.Rpc.Slots.{
  Sender, Slot, free, waiting, Reply, fresh_slot, slot_at, index_of, add_sender, set_reply,
  reply_expected, is_waiting, send_reply,
}
use zhenyi.Rpc.Reply.{found, pending, expired, received, get_reply, Round, wait_reply, receive}
use zhenyi.Rpc.Claim.{IsPool, HasRoom, Claimed}
use zhenyi.Rpc.Alloc.{add_sender-Claimed}
use zhenyi.Rpc.Late.{Op, calls, replies, polls, checks, apply_all, late_reply_dropped}
use zhenyi.Rpc.Call.{ends, get_reply-found, get_reply-returned, call_answered}

abbrev two_slots : Sender
two_slots = record {
  slots = fresh_slot ∷ fresh_slot ∷ [];
  cursor = 0;
  index_mask = 1;
  pool_size = 2;
  abandoned_recycle_delay = 100;
  waiting_force_recycle_ttl = 120000;
  retained = 0;
  released = 0;
}

two_slots-IsPool : IsPool 1 two_slots
two_slots-IsPool = record { bits = omega arith; size = refl; mask = refl; many = refl }

two_slots-HasRoom : HasRoom two_slots
two_slots-HasRoom zero = omega arith
two_slots-HasRoom (suc zero) = omega arith
two_slots-HasRoom (suc (suc idx)) = omega arith

add_sender-Claimed_example :
    ((t : Sender) × (rpc_id : ℕ) × (add_sender two_slots 50 ≡ (t, some rpc_id))
      × Claimed 1 50 two_slots t rpc_id)
    ⊎ ((add_sender two_slots 50).1 ≡ none)
      × ((add_sender two_slots 50).0 ≡ record two_slots { cursor = 1 })
      × ((idx : ℕ) → idx < 2 ^ 1 → (slot_at two_slots idx).state ≢ free)
add_sender-Claimed_example = add_sender-Claimed 1 50 two_slots two_slots-IsPool two_slots-HasRoom

abbrev taken_slot : Slot
taken_slot = record { ch = none; version = 2; state = waiting; timestamp = 50 }

-- Slot 1 is claimed, with the id `(2 << 16) | 1`.
abbrev one_taken : Sender
one_taken = record two_slots { slots = fresh_slot ∷ taken_slot ∷ []; cursor = 1 }

abbrev reply : Reply
reply = record { rpc_id = 131073; token = 8 }

other_slots : (j : ℕ) → j ≢ 1 → slot_at one_taken j ≡ slot_at two_slots j
other_slots zero ne = refl
other_slots (suc zero) ne = absurd (ne refl)
other_slots (suc (suc j)) ne = refl

one_taken-Claimed : Claimed 1 50 two_slots one_taken 131073
one_taken-Claimed = record {
  idx = 1;
  in_pool = omega arith;
  was_free = refl;
  index = refl;
  version = refl;
  slot = refl;
  others = other_slots;
  pool = record { bits = omega arith; size = refl; mask = refl; many = refl };
}

call_answered_example :
    (u : Sender) × (get_reply (set_reply one_taken reply) 131073 3 false 60 [] ≡ (u, found reply))
    × (slot_at u (index_of one_taken 131073)
        ≡ record (slot_at one_taken (index_of one_taken 131073)) { ch = none; state = free })
    × (u.retained ≡ 1)
    × (u.released ≡ 0)
    × ((j : ℕ) → j ≢ index_of one_taken 131073 → slot_at u j ≡ slot_at two_slots j)
call_answered_example = call_answered 1 50 2 two_slots one_taken reply 60 [] one_taken-Claimed refl

-- The reply comes while the call waits.
abbrev answered : List Round
answered = ((λ s. set_reply s reply), received) ∷ []

answered_run : (get_reply one_taken 131073 5 false 60 answered).1 ≡ found reply
unfolding get_reply wait_reply receive set_reply reply_expected is_waiting send_reply
answered_run = refl

get_reply-found_example : reply.rpc_id ≡ 131073
get_reply-found_example = get_reply-found one_taken 131073 5 false 60 answered reply answered_run

abbrev timed_out : List Round
timed_out = ((λ s. s), received) ∷ ((λ s. set_reply s reply), expired 90) ∷ []

timed_out-ends : ends timed_out ≡ true
unfolding ends
timed_out-ends = refl

get_reply-returned_example : (get_reply one_taken 131073 5 false 60 timed_out).1 ≢ pending
get_reply-returned_example = get_reply-returned one_taken 131073 5 false 60 timed_out timed_out-ends

-- A reply to the call before the one that waits in slot 1.
abbrev stale : Reply
stale = record { rpc_id = 65537; token = 4 }

abbrev busy : List Op
busy = replies reply ∷ polls 131073 ∷ checks 0 900000 ∷ calls 900001 ∷ []

one_taken-IsPool : IsPool 1 one_taken
one_taken-IsPool = record { bits = omega arith; size = refl; mask = refl; many = refl }

one_taken_room : (j : ℕ) → (slot_at one_taken j).version + length busy < 2 ^ 48
one_taken_room zero = omega arith
one_taken_room (suc zero) = omega arith
one_taken_room (suc (suc j)) = omega arith

late_reply_dropped_example : set_reply (apply_all busy one_taken) stale ≡ apply_all busy one_taken
late_reply_dropped_example =
    late_reply_dropped busy 1 one_taken stale one_taken-IsPool one_taken_room (omega arith)
