-- ===== src/Msg/Envelope.antt =====
-- zmsg/msg.go and zmsg/msg_ext.go: the message, `Size`, `MarshalTo`, `Marshal`, `MarshalPooled`,
-- `Unmarshal`, `SmartReset` and `PoolReset`. A `[]byte` is a list of numbers with its capacity.
-- An int32 (`MsgId`, `RefCount`) is its 32-bit pattern, which is what the wire carries.
use Prim.Native.Nat.{bit_and, bit_or}
use zhenyi.Prelude.{
  ℕ, zero, suc, ◌+◌, ◌*◌, ◌%◌, ◌^◌, Bool, false, not, List, [], ◌∷◌, length, take, drop, replicate,
  ltb, leb, ◌==◌, if◌then◌else◌,
}
use zhenyi.Prelude.Outcome.{Outcome, ok, err, panic, ◌>>=◌}
use zhenyi.Msg.Bytes.{le_bytes, le_value}

abbrev pub fixed_header_size : ℕ
fixed_header_size = 65

abbrev pub max_message_data_size : ℕ
max_message_data_size = 16 * 2 ^ 20

pub data Error : Type 0 where
  buffer_too_small data_corrupt : Error

pub record Slice : Type 0 where
  pub bytes : List ℕ
  pub cap : ℕ

-- A nil slice.
abbrev pub nil_slice : Slice
nil_slice = record { bytes = []; cap = 0 }

pub record Message : Type 0 where
  pub session_id : ℕ
  pub rpc_id : ℕ
  pub trace_id_hi : ℕ
  pub trace_id_lo : ℕ
  pub span_id : ℕ
  pub payload : Slice
  pub msg_id : ℕ
  pub src_actor : ℕ
  pub tar_actor : ℕ
  pub ref_count : ℕ
  pub seq_id : ℕ
  pub to_client : Bool
  pub from_client : Bool
  pub is_response : Bool

unfoldable pub size : Message → ℕ
size m = fixed_header_size + (4 + length m.payload.bytes)

-- The three flags in one byte.
unfoldable pub pack_flags : Bool → Bool → Bool → ℕ
pack_flags to_client from_client is_response =
    let f0 : ℕ = 0 in
    let f1 = if to_client then bit_or f0 1 else f0 in
    let f2 = if from_client then bit_or f1 2 else f1 in if is_response then bit_or f2 4 else f2

-- `(flags & mask) != 0`
unfoldable pub has_flag : ℕ → ℕ → Bool
has_flag flags mask = not (bit_and flags mask == 0)

-- `copy(buf[offset:], src)`: stops at the end of either.
unfoldable pub overwrite : List ℕ → ℕ → List ℕ → List ℕ
overwrite [] offset src = []
overwrite (x ∷ xs) (suc offset) src = x ∷ overwrite xs offset src
overwrite (x ∷ xs) zero [] = x ∷ xs
overwrite (x ∷ xs) zero (b ∷ bs) = b ∷ overwrite xs zero bs

pub record Writer : Type 0 where
  pub buf : List ℕ
  pub offset : ℕ

-- One `buf[offset] = …`, `PutUint32` or `PutUint64`, then `offset += …`. Past the end it panics.
unfoldable pub put_chunk : Writer → List ℕ → Outcome Error Writer
put_chunk w bs =
    if leb (w.offset + length bs) (length w.buf)
    then ok (record { buf = overwrite w.buf w.offset bs; offset = w.offset + length bs })
    else panic

unfoldable pub put_chunks : Writer → List (List ℕ) → Outcome Error Writer
put_chunks w [] = ok w
put_chunks w (c ∷ cs) = put_chunk w c >>= λ w'. put_chunks w' cs

-- The fixed part in the order of the writes.
unfoldable pub header_chunks : Message → List (List ℕ)
header_chunks m =
    (pack_flags m.to_client m.from_client m.is_response ∷ [])
    ∷ le_bytes 4 m.msg_id
    ∷ le_bytes 8 m.src_actor
    ∷ le_bytes 8 m.tar_actor
    ∷ le_bytes 8 m.session_id
    ∷ le_bytes 8 m.rpc_id
    ∷ le_bytes 4 m.seq_id
    ∷ le_bytes 8 m.trace_id_hi
    ∷ le_bytes 8 m.trace_id_lo
    ∷ le_bytes 8 m.span_id
    ∷ []

-- The buffer as it is left, and the count of bytes written. `dataLen` is a uint32.
unfoldable pub marshal_to : Message → List ℕ → Outcome Error (List ℕ × ℕ)
marshal_to m buf = if ltb (length buf) (size m) then err buffer_too_small else do
  let data_len = length m.payload.bytes % 2 ^ 32
  w ← put_chunks (record { buf = buf; offset = 0 }) (header_chunks m)
  w' ← put_chunk w (le_bytes 4 data_len)
  ok (
      if ltb 0 data_len
      then (overwrite w'.buf w'.offset m.payload.bytes, w'.offset + data_len)
      else (w'.buf, w'.offset))

unfoldable pub marshal : Message → Outcome Error (List ℕ)
marshal m = marshal_to m (replicate (size m) 0) >>= λ r. ok r.0

-- `buf` is what the byte pool hands out for `Size()` bytes: it may hold the bytes of an earlier use.
unfoldable pub marshal_pooled : Message → List ℕ → Outcome Error (List ℕ)
marshal_pooled m buf = marshal_to m buf >>= λ r. ok (take r.1 r.0)

-- A failed `Unmarshal` leaves the fields that it has set: the message stands beside the error.
abbrev pub Failure : Type 0
Failure = Message × Error

-- `buf[offset]`, `Uint32(buf[offset:])`, `Uint64(buf[offset:])`. Past the end they panic.
unfoldable pub read : List ℕ → ℕ → ℕ → Outcome Failure ℕ
read buf offset n =
    if leb (offset + n) (length buf) then ok (le_value (take n (drop offset buf))) else panic

-- Flags and fixed numbers, read at the offsets that the code adds up.
unfoldable pub unmarshal_header : Message → List ℕ → Outcome Failure Message
unmarshal_header m buf = do
  flags ← read buf 0 1
  msg_id ← read buf 1 4
  src_actor ← read buf 5 8
  tar_actor ← read buf 13 8
  session_id ← read buf 21 8
  rpc_id ← read buf 29 8
  seq_id ← read buf 37 4
  trace_id_hi ← read buf 41 8
  trace_id_lo ← read buf 49 8
  span_id ← read buf 57 8
  ok (record m {
    to_client = has_flag flags 1;
    from_client = has_flag flags 2;
    is_response = has_flag flags 4;
    msg_id = msg_id;
    src_actor = src_actor;
    tar_actor = tar_actor;
    session_id = session_id;
    rpc_id = rpc_id;
    seq_id = seq_id;
    trace_id_hi = trace_id_hi;
    trace_id_lo = trace_id_lo;
    span_id = span_id;
  })

-- The capacity is kept where it is enough, and otherwise a slice is made.
unfoldable pub refill : Slice → List ℕ → Slice
refill s bs = record { bytes = bs; cap = if leb (length bs) s.cap then s.cap else length bs }

unfoldable pub unmarshal_payload : Message → List ℕ → ℕ → Outcome Failure Message
unmarshal_payload m buf data_len =
    if ltb max_message_data_size data_len
    then err (m, data_corrupt)
    else if ltb 0 data_len
    then if ltb (length buf) (69 + data_len)
      then err (m, data_corrupt)
      else ok (record m { payload = refill m.payload (take data_len (drop 69 buf)) })
    else ok (record m { payload = nil_slice })

-- The part behind the fixed header.
unfoldable pub unmarshal_data : Message → List ℕ → Outcome Failure Message
unmarshal_data m buf =
    if ltb (length buf) (65 + 4)
    then err (m, data_corrupt)
    else read buf 65 4 >>= λ data_len. unmarshal_payload m buf data_len

unfoldable pub unmarshal : Message → List ℕ → Outcome Failure Message
unmarshal m buf =
    if ltb (length buf) fixed_header_size
    then err (m, data_corrupt)
    else unmarshal_header m buf >>= λ h. unmarshal_data h buf

-- `RefCount` aside, the fields that both resets clear.
abbrev clear_fields : Message → Message
clear_fields m = record m {
  msg_id = 0;
  to_client = false;
  src_actor = 0;
  tar_actor = 0;
  session_id = 0;
  from_client = false;
  is_response = false;
  rpc_id = 0;
  trace_id_hi = 0;
  trace_id_lo = 0;
  span_id = 0;
  seq_id = 0;
}

unfoldable pub smart_reset : Message → Message
smart_reset m = record (clear_fields m) { payload = nil_slice; ref_count = 0 }

-- The pool keeps the capacity of `Data`, and the count is left to its caller.
unfoldable pub pool_reset : Message → Message
pool_reset m = record (clear_fields m) { payload = record { bytes = []; cap = m.payload.cap } }
