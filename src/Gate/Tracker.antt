-- ===== src/Gate/Tracker.antt =====
-- zgate/rtt_tracker.go: `LockFreeRTTTracker`, each call as the sequence of its atomic accesses with
-- nothing between them. A time is the number of nanoseconds since 1970, below `2 ^ 63`; a session
-- id is a uint64 and a sequence number a uint32.
use Prim.Native.Nat.{bit_and, bit_or}
use zhenyi.Prelude.{
  ℕ, ◌+◌, ◌-◌, ◌*◌, ◌/◌, ◌%◌, ◌^◌, List, Option, none, some, get_or, set, take, replicate, ltb, leb,
  ◌==◌, if◌then◌else◌,
}

pub record AtomicSlot : Type 0 where
  pub send_time : ℕ
  pub req_key : ℕ

pub record Tracker : Type 0 where
  pub buffer : List AtomicSlot
  pub mask : ℕ
  pub samples : List ℕ
  pub sample_idx : ℕ
  pub max_samples : ℕ

-- The package's own copy, which rounds 1 up as well.
unfoldable pub power_of_two : ℕ → ℕ
power_of_two n =
    let n0 = n - 1 in
    let n1 = bit_or n0 (n0 / 2 ^ 1) in
    let n2 = bit_or n1 (n1 / 2 ^ 2) in
    let n3 = bit_or n2 (n2 / 2 ^ 4) in
    let n4 = bit_or n3 (n3 / 2 ^ 8) in
    let n5 = bit_or n4 (n4 / 2 ^ 16) in if leb n 1 then 2 else n5 + 1

abbrev pub zero_slot : AtomicSlot
zero_slot = record { send_time = 0; req_key = 0 }

unfoldable pub new_tracker : ℕ → ℕ → Tracker
new_tracker buffer_size max_samples =
    let size = power_of_two buffer_size in
    record {
      buffer = replicate size zero_slot;
      mask = (size - 1) % 2 ^ 32;
      samples = replicate max_samples 0;
      sample_idx = 0;
      max_samples = max_samples;
    }

-- `(sessionId << 32) | uint64(seqId)`
unfoldable pub key_of : ℕ → ℕ → ℕ
key_of session_id seq_id = bit_or (session_id * 2 ^ 32 % 2 ^ 64) seq_id

-- The index of a slot is under the mask, and so in range.
abbrev pub slot_of : Tracker → ℕ → AtomicSlot
slot_of t seq_id = get_or t.buffer (bit_and seq_id t.mask) zero_slot

unfoldable pub record_send : Tracker → ℕ → ℕ → ℕ → Tracker
record_send t session_id seq_id now =
    let slot : AtomicSlot = record { send_time = now; req_key = key_of session_id seq_id } in
    record t { buffer = set t.buffer (bit_and seq_id t.mask) slot }

abbrev pub max_rtt : ℕ
max_rtt = 10 * 1000 * 1000 * 1000

-- The index goes up on every sample; past the end nothing is stored.
unfoldable pub store_sample : Tracker → ℕ → Tracker
store_sample t cost =
    let next = record t { sample_idx = (t.sample_idx + 1) % 2 ^ 32 } in
    if ltb t.sample_idx t.max_samples
    then record next { samples = set t.samples t.sample_idx cost }
    else next

-- `none` stands for `0, false`.
unfoldable pub complete : Tracker → ℕ → ℕ → ℕ → Tracker × Option ℕ
complete t session_id seq_id now =
    let slot = slot_of t seq_id in
    let cost = now - slot.send_time in
    if slot.req_key == key_of session_id seq_id
    then (if slot.send_time == 0
        then (t, none)
        else if leb now slot.send_time
        then (t, none)
        else if ltb max_rtt cost
        then (t, none)
        else (store_sample t cost, some cost))
    else (t, none)

unfoldable pub get_and_reset_samples : Tracker → Tracker × List ℕ
get_and_reset_samples t =
    let count = if ltb t.max_samples t.sample_idx then t.max_samples else t.sample_idx in
    (record t { sample_idx = 0 }, take count t.samples)
