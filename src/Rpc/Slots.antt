-- ===== src/Rpc/Slots.antt =====
-- zactor/sender.go: the slot pool of `ActorMsgSender`, `AddSender`, `SetReply` and the watchdog's
-- `checkSlot` and `recycleSlot`. Each function stands for its atomic accesses in the order of the
-- code; the clock's reading (milliseconds) is an argument. A message is its `RpcId` and a token
-- for the rest; `retained` and `released` count the calls of `Retain` and `Release`.
use Prim.Native.Nat.{bit_and, bit_or}
use zhenyi.Prelude.{
  ℕ, zero, suc, ◌+◌, ◌-◌, ◌*◌, ◌/◌, ◌%◌, ◌^◌, Bool, true, false, List, Option, none, some, get_or,
  set, replicate, ltb, ◌==◌, if◌then◌else◌,
}

pub data SlotState : Type 0 where
  free waiting abandoned : SlotState

pub record Reply : Type 0 where
  pub rpc_id : ℕ
  pub token : ℕ

-- `ch` is a channel of capacity 1: what it holds.
pub record Slot : Type 0 where
  pub ch : Option Reply
  pub version : ℕ
  pub state : SlotState
  pub timestamp : ℕ

pub record Sender : Type 0 where
  pub slots : List Slot
  pub cursor : ℕ
  pub index_mask : ℕ
  pub pool_size : ℕ
  pub abandoned_recycle_delay : ℕ
  pub waiting_force_recycle_ttl : ℕ
  pub retained : ℕ
  pub released : ℕ

abbrev pub version_shift : ℕ
version_shift = 16

abbrev pub default_max_pending : ℕ
default_max_pending = 4096

-- Shifts and `|` over an int: the loop-free rounding of zactor/sender.go.
unfoldable pub next_power_of_two : ℕ → ℕ
next_power_of_two n =
    let n0 = n - 1 in
    let n1 = bit_or n0 (n0 / 2 ^ 1) in
    let n2 = bit_or n1 (n1 / 2 ^ 2) in
    let n3 = bit_or n2 (n2 / 2 ^ 4) in
    let n4 = bit_or n3 (n3 / 2 ^ 8) in
    let n5 = bit_or n4 (n4 / 2 ^ 16) in if n == 0 then 2 else n5 + 1

abbrev pub fresh_slot : Slot
fresh_slot = record { ch = none; version = 1; state = free; timestamp = 0 }

-- `none` is the panic on a pool of more than 65536 slots. `max_pending` is an int that is not
-- negative: it comes from a uint32.
unfoldable pub new_sender : ℕ → Option Sender
new_sender max_pending =
    let size = next_power_of_two (if max_pending == 0 then default_max_pending else max_pending) in
    if ltb (2 ^ version_shift) size
    then none
    else some (record {
      slots = replicate size fresh_slot;
      cursor = 0;
      index_mask = size - 1;
      pool_size = size;
      abandoned_recycle_delay = 100;
      waiting_force_recycle_ttl = 2 * 60 * 1000;
      retained = 0;
      released = 0;
    })

-- The index of a slot is always under the mask, and so in range.
abbrev pub slot_at : Sender → ℕ → Slot
slot_at s idx = get_or s.slots idx fresh_slot

abbrev pub put_slot : Sender → ℕ → Slot → Sender
put_slot s idx slot = record s { slots = set s.slots idx slot }

abbrev pub index_of : Sender → ℕ → ℕ
index_of s n = bit_and n s.index_mask

abbrev pub version_of : ℕ → ℕ
version_of rpc_id = rpc_id / 2 ^ version_shift

-- `(newVer << VersionShift) | idx`
unfoldable pub rpc_id_of : ℕ → ℕ → ℕ
rpc_id_of new_ver idx = bit_or (new_ver * 2 ^ version_shift % 2 ^ 64) idx

-- The body of the loop behind a successful compare-and-swap from Free to Waiting.
unfoldable pub claim : Sender → ℕ → ℕ → Sender × Option ℕ
claim s idx now =
    let slot = slot_at s idx in
    let new_ver = (slot.version + 1) % 2 ^ 64 in
    let claimed = record slot { state = waiting; version = new_ver; timestamp = now } in
    let rpc_id = rpc_id_of new_ver idx in
    if rpc_id == 0
    then (put_slot s idx (record claimed { state = free }), none)
    else (put_slot s idx claimed, some rpc_id)

unfoldable pub try_slot : SlotState → Sender → ℕ → ℕ → Sender × Option ℕ
try_slot free s idx now = claim s idx now
try_slot waiting s idx now = (s, none)
try_slot abandoned s idx now = (s, none)

-- The loop of `AddSender`: the rounds that are left, and `start + i`. `none` is `ErrPoolExhausted`.
unfoldable pub add_from : ℕ → ℕ → ℕ → Sender → Sender × Option ℕ
add_from zero pos now s = (s, none)
add_from (suc rounds) pos now s =
    let idx = index_of s pos in
    let r = try_slot (slot_at s idx).state s idx now in
    elim r.1 [
      | some rpc_id ↦ (r.0, some rpc_id)
      | none ↦ add_from rounds ((pos + 1) % 2 ^ 64) now r.0
    ]

unfoldable pub add_sender : Sender → ℕ → Sender × Option ℕ
add_sender s now =
    let start = (s.cursor + 1) % 2 ^ 64 in
    add_from s.pool_size start now (record s { cursor = start })

unfoldable pub is_waiting : SlotState → Bool
is_waiting waiting = true
is_waiting free = false
is_waiting abandoned = false

-- The two tests of `SetReply`.
unfoldable pub reply_expected : Sender → ℕ → Bool
unfolding is_waiting
reply_expected s rpc_id =
    let slot = slot_at s (index_of s rpc_id) in
    if slot.version == version_of rpc_id then is_waiting slot.state else false

-- The send behind them: retained, and released again if the channel is full.
unfoldable pub send_reply : Sender → Reply → Sender
send_reply s r =
    let idx = index_of s r.rpc_id in
    let slot = slot_at s idx in
    elim slot.ch [
      | none ↦ record (put_slot s idx (record slot { ch = some r })) { retained = s.retained + 1 }
      | some _ ↦ record s { retained = s.retained + 1; released = s.released + 1 }
    ]

unfoldable pub set_reply : Sender → Reply → Sender
set_reply s r = if reply_expected s r.rpc_id then send_reply s r else s

-- Version up, channel drained, state Free.
unfoldable pub recycle_slot : Sender → ℕ → Sender
recycle_slot s idx =
    let slot = slot_at s idx in
    let blank = record slot { ch = none; version = (slot.version + 1) % 2 ^ 64; state = free } in
    elim slot.ch [
      | none ↦ put_slot s idx blank
      | some _ ↦ record (put_slot s idx blank) { released = s.released + 1 }
    ]

unfoldable pub check_in : SlotState → Sender → ℕ → ℕ → Sender
check_in free s idx now = s
check_in abandoned s idx now =
    if ltb ((slot_at s idx).timestamp + s.abandoned_recycle_delay) now
    then recycle_slot s idx
    else s
check_in waiting s idx now =
    if ltb ((slot_at s idx).timestamp + s.waiting_force_recycle_ttl) now
    then recycle_slot s idx
    else s

unfoldable pub check_slot : Sender → ℕ → ℕ → Sender
unfolding check_in
check_slot s idx now = check_in (slot_at s idx).state s idx now

-- One tick of the watchdog: the slots of one of sixteen shards, from `start` on.
unfoldable pub check_range : ℕ → ℕ → ℕ → Sender → Sender
check_range zero start now s = s
check_range (suc n) start now s = check_range n (start + 1) now (check_slot s start now)

-- The shard's slots, and the index of the next shard.
unfoldable pub watchdog_tick : Sender → ℕ → ℕ → Sender × ℕ
watchdog_tick s shard_idx now =
    let shards : ℕ = 16 in
    let batch_size = if ltb (s.pool_size / shards) 1 then 1 else s.pool_size / shards in
    let start = shard_idx * batch_size in
    let end = if ltb s.pool_size (start + batch_size) then s.pool_size else start + batch_size in
    (check_range (end - start) start now s, (shard_idx + 1) % shards)
