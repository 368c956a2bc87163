-- ===== src/Msg/Decode.antt =====
-- What `Unmarshal` accepts and what it makes of the bytes, and the round trip.
use zhenyi.Prelude.{
  ℕ, ◌+◌, ◌^◌, ◌≤◌, ◌<◌, ◌≡◌, refl, ap, ◌∙◌, List, [], ◌∷◌, ◌++◌, length, take, drop, length-append,
  take-length-append, arith, le→leb, lt→ltb, ltb_of_le, Bool, true, false,
}
use zhenyi.Prelude.Outcome.{ok}
use zhenyi.Msg.Bytes.{le_bytes, le_value, le_value-le_bytes}
use zhenyi.Msg.Envelope.{
  Message, Slice, nil_slice, size, pack_flags, has_flag, header_chunks, read, unmarshal_header,
  refill, unmarshal_payload, unmarshal_data, unmarshal, max_message_data_size,
}
use zhenyi.Msg.Encode.{encode, length-encode}

-- The number in `n` bytes at an offset.
abbrev pub field : List ℕ → ℕ → ℕ → ℕ
field buf offset n = le_value (take n (drop offset buf))

abbrev pub header_of : Message → List ℕ → Message
header_of m buf = record m {
  to_client = has_flag (field buf 0 1) 1;
  from_client = has_flag (field buf 0 1) 2;
  is_response = has_flag (field buf 0 1) 4;
  msg_id = field buf 1 4;
  src_actor = field buf 5 8;
  tar_actor = field buf 13 8;
  session_id = field buf 21 8;
  rpc_id = field buf 29 8;
  seq_id = field buf 37 4;
  trace_id_hi = field buf 41 8;
  trace_id_lo = field buf 49 8;
  span_id = field buf 57 8;
}

pub read-field :
    (buf : List ℕ) (offset n : ℕ)
    → offset + n ≤ length buf
    → read buf offset n ≡ ok (field buf offset n)
unfolding read
read-field buf offset n h = rw (le→leb (offset + n) (length buf) h)

pub header-header_of :
    (m : Message) (buf : List ℕ) → 65 ≤ length buf → unmarshal_header m buf ≡ ok (header_of m buf)
unfolding unmarshal_header
header-header_of m buf h = rw (
  read-field buf 0 1 (omega arith),
  read-field buf 1 4 (omega arith),
  read-field buf 5 8 (omega arith),
  read-field buf 13 8 (omega arith),
  read-field buf 21 8 (omega arith),
  read-field buf 29 8 (omega arith),
  read-field buf 37 4 (omega arith),
  read-field buf 41 8 (omega arith),
  read-field buf 49 8 (omega arith),
  read-field buf 57 8 (omega arith),
)

-- The fields are in the range of their Go types.
pub record InRange (m : Message) : Type 0 where
  pub session_id : m.session_id < 2 ^ 64
  pub rpc_id : m.rpc_id < 2 ^ 64
  pub trace_id_hi : m.trace_id_hi < 2 ^ 64
  pub trace_id_lo : m.trace_id_lo < 2 ^ 64
  pub span_id : m.span_id < 2 ^ 64
  pub msg_id : m.msg_id < 2 ^ 32
  pub src_actor : m.src_actor < 2 ^ 64
  pub tar_actor : m.tar_actor < 2 ^ 64
  pub seq_id : m.seq_id < 2 ^ 32

flags_back :
    (t f r : Bool)
    → (has_flag (pack_flags t f r + 0) 1 ≡ t)
      × (has_flag (pack_flags t f r + 0) 2 ≡ f)
      × (has_flag (pack_flags t f r + 0) 4 ≡ r)
unfolding pack_flags has_flag
flags_back true true true = (refl, refl, refl)
flags_back true true false = (refl, refl, refl)
flags_back true false true = (refl, refl, refl)
flags_back true false false = (refl, refl, refl)
flags_back false true true = (refl, refl, refl)
flags_back false true false = (refl, refl, refl)
flags_back false false true = (refl, refl, refl)
flags_back false false false = (refl, refl, refl)

-- The header of one message over the count and the payload of another.
abbrev pub with_header : Message → Message → Message
with_header m old = record m { payload = old.payload; ref_count = old.ref_count }

header_of-encode :
    (m old : Message) (rest : List ℕ)
    → InRange m
    → header_of old (encode m ++ rest) ≡ with_header m old
unfolding encode header_chunks le_bytes le_value
header_of-encode m old rest h =
    let (t, f, r) = flags_back m.to_client m.from_client m.is_response in
    λ i. record old {
      to_client = t i;
      from_client = f i;
      is_response = r i;
      msg_id = le_value-le_bytes 4 m.msg_id h.msg_id i;
      src_actor = le_value-le_bytes 8 m.src_actor h.src_actor i;
      tar_actor = le_value-le_bytes 8 m.tar_actor h.tar_actor i;
      session_id = le_value-le_bytes 8 m.session_id h.session_id i;
      rpc_id = le_value-le_bytes 8 m.rpc_id h.rpc_id i;
      seq_id = le_value-le_bytes 4 m.seq_id h.seq_id i;
      trace_id_hi = le_value-le_bytes 8 m.trace_id_hi h.trace_id_hi i;
      trace_id_lo = le_value-le_bytes 8 m.trace_id_lo h.trace_id_lo i;
      span_id = le_value-le_bytes 8 m.span_id h.span_id i;
    }

data_len-encode :
    (m : Message) (rest : List ℕ)
    → length m.payload.bytes < 2 ^ 32
    → field (encode m ++ rest) 65 4 ≡ length m.payload.bytes
unfolding encode header_chunks le_bytes le_value
data_len-encode m rest h = le_value-le_bytes 4 (length m.payload.bytes) h

payload-encode :
    (m : Message) (rest : List ℕ)
    → take (length m.payload.bytes) (drop 69 (encode m ++ rest)) ≡ m.payload.bytes
unfolding encode header_chunks le_bytes
payload-encode m rest = take-length-append _ m.payload.bytes rest refl

-- On a buffer with a whole header and a count, what is left is a question of the count.
data_cases :
    (m : Message) (buf : List ℕ)
    → 69 ≤ length buf
    → unmarshal_data m buf ≡ unmarshal_payload m buf (field buf 65 4)
unfolding unmarshal_data
data_cases m buf h = rw (ltb_of_le (length buf) (65 + 4) h, read-field buf 65 4 h)

-- The payload that `Unmarshal` leaves over an old message's slice.
unfoldable pub payload_over : Slice → List ℕ → Slice
payload_over old [] = nil_slice
payload_over old (b ∷ bs) = refill old (b ∷ bs)

payload_back :
    (m : Message) (buf bs : List ℕ)
    → take (length bs) (drop 69 buf) ≡ bs
    → length bs ≤ max_message_data_size
    → length bs + 69 ≤ length buf
    → unmarshal_payload m buf (length bs) ≡ ok (record m { payload = payload_over m.payload bs })
unfolding unmarshal_payload payload_over
payload_back m buf [] e small room = refl
payload_back m buf (b ∷ bs) e small room = rw (
  ltb_of_le max_message_data_size (length (b ∷ bs)) small,
  lt→ltb 0 (length (b ∷ bs)) (omega arith),
  ltb_of_le (length buf) (69 + length (b ∷ bs)) (omega arith),
  e,
)

-- For a message whose fields fit their widths and whose payload has at most 16 MB, decoding its
-- layout, with any bytes behind it, gives back every field and the payload; the count of the
-- receiving message stays.
pub unmarshal-encode :
    (m old : Message) (rest : List ℕ)
    → InRange m
    → length m.payload.bytes ≤ max_message_data_size
    → unmarshal old (encode m ++ rest)
      ≡ ok (record m {
        ref_count = old.ref_count;
        payload = payload_over old.payload m.payload.bytes;
      })
unfolding unmarshal size
unmarshal-encode m old rest range small =
    let buf = encode m ++ rest in
    let len = length m.payload.bytes in
    let total : length buf ≡ 65 + (4 + len) + length rest =
      length-append (encode m) rest ∙ ap (λ k. k + length rest) (length-encode m) in
    rw (
      ltb_of_le (length buf) 65 (omega arith),
      header-header_of old buf (omega arith),
      header_of-encode m old rest range,
      data_cases (with_header m old) buf (omega arith),
      data_len-encode m rest (omega arith),
      payload_back (with_header m old) buf m.payload.bytes (payload-encode m rest) small
          (omega arith),
    )
