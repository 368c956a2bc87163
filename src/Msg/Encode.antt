-- ===== src/Msg/Encode.antt =====
-- What `MarshalTo` writes: the wire layout as one list, whatever the buffer held.
use native.Mathlib.Nat.{add-zero, add_assoc, mod-eq_of_lt}
use zhenyi.Prelude.{
  ℕ, zero, suc, ◌+◌, ◌-◌, ◌^◌, ◌≤◌, ◌<◌, ◌≡◌, refl, ap, List, [], ◌∷◌, ◌++◌, append_assoc,
  append-nil, length, drop, replicate, length-append, length-drop, length-replicate,
  take-length-append, arith, ltb, le→leb, lt→ltb, ltb_of_le, drop-drop, drop_all, if◌then◌else◌,
}
use zhenyi.Prelude.Outcome.{ok, err}
use zhenyi.Msg.Bytes.{le_bytes, length-le_bytes}
use zhenyi.Msg.Envelope.{
  buffer_too_small, Message, size, overwrite, put_chunk, put_chunks, header_chunks, marshal_to,
  marshal, marshal_pooled,
}

-- The chunks side by side.
abbrev pub joined : List (List ℕ) → List ℕ
joined [] = []
joined (c ∷ cs) = c ++ joined cs

-- The wire format.
unfoldable pub encode : Message → List ℕ
encode m = joined (header_chunks m) ++ (le_bytes 4 (length m.payload.bytes) ++ m.payload.bytes)

overwrite-append :
    (done rest bs : List ℕ) (n : ℕ)
    → length done ≡ n
    → length bs ≤ length rest
    → overwrite (done ++ rest) n bs ≡ done ++ (bs ++ drop (length bs) rest)
unfolding overwrite
overwrite-append [] [] [] zero e h = refl
overwrite-append [] (x ∷ rest) [] zero e h = refl
overwrite-append [] [] (b ∷ bs) zero e h = absurd (omega arith)
overwrite-append [] (x ∷ rest) (b ∷ bs) zero e h =
    ap (◌∷◌ b) (overwrite-append [] rest bs 0 refl (omega arith))
overwrite-append (x ∷ done) rest bs zero e h = absurd (omega arith)
overwrite-append [] rest bs (suc n) e h = absurd (omega arith)
overwrite-append (x ∷ done) rest bs (suc n) e h =
    ap (◌∷◌ x) (overwrite-append done rest bs n (omega arith) h)

put_chunk-append :
    (done rest bs : List ℕ) (n : ℕ)
    → length done ≡ n
    → length bs ≤ length rest
    → put_chunk (record { buf = done ++ rest; offset = n }) bs
      ≡ ok (record { buf = (done ++ bs) ++ drop (length bs) rest; offset = n + length bs })
unfolding put_chunk
put_chunk-append done rest bs n e h = rw (
  le→leb (n + length bs) (length (done ++ rest)) (omega (arith, length-append done rest)),
  overwrite-append done rest bs n e h,
  append_assoc,
)

drop-length-drop-length :
    (cs ds rest : List ℕ) → drop (length ds) (drop (length cs) rest) ≡ drop (length (cs ++ ds)) rest
drop-length-drop-length [] ds rest = refl
drop-length-drop-length (c ∷ cs) [] [] = refl
drop-length-drop-length (c ∷ cs) (d ∷ ds) [] = refl
drop-length-drop-length (c ∷ cs) ds (x ∷ rest) = drop-length-drop-length cs ds rest

put_chunks-append :
    (done rest : List ℕ) (cs : List (List ℕ)) (n : ℕ)
    → length done ≡ n
    → length (joined cs) ≤ length rest
    → put_chunks (record { buf = done ++ rest; offset = n }) cs
      ≡ ok (record {
        buf = (done ++ joined cs) ++ drop (length (joined cs)) rest;
        offset = n + length (joined cs);
      })
unfolding put_chunks
put_chunks-append done rest [] n e h = rw (append-nil, add-zero)
put_chunks-append done rest (c ∷ cs) n e h =
    let room : length c + length (joined cs) ≤ length rest =
      omega (arith, length-append c (joined cs)) in
    rw (
      put_chunk-append done rest c n e (omega arith),
      put_chunks-append (done ++ c) (drop (length c) rest) cs (n + length c)
          (omega (arith, length-append done c)) (omega (arith, length-drop (length c) rest)),
      drop-length-drop-length c (joined cs) rest,
      length-append c (joined cs),
      append_assoc done c (joined cs),
      add_assoc,
    )

-- The fixed part is `FixedHeaderSize` bytes long.
length-joined_header : (m : Message) → length (joined (header_chunks m)) ≡ 65
unfolding header_chunks le_bytes
length-joined_header m = refl

pub length-encode : (m : Message) → length (encode m) ≡ size m
unfolding encode size
length-encode m = omega (
  arith,
  length-append (joined (header_chunks m)) (le_bytes 4 (length m.payload.bytes) ++ m.payload.bytes),
  length-append (le_bytes 4 (length m.payload.bytes)) m.payload.bytes,
  length-joined_header m,
  length-le_bytes 4 (length m.payload.bytes),
)

-- The last write: a payload of length 0 is not copied, which changes nothing.
copy_payload :
    (done rest bs : List ℕ) (n : ℕ)
    → length done ≡ n
    → length bs ≤ length rest
    → ◌≡◌ {A = List ℕ × ℕ}
        (if ltb 0 (length bs)
          then (overwrite (done ++ rest) n bs, n + length bs)
          else (done ++ rest, n))
        ((done ++ bs) ++ drop (length bs) rest, n + length bs)
copy_payload done rest [] n e h = rw (append-nil, add-zero)
copy_payload done rest (b ∷ bs) n e h = rw (
  lt→ltb 0 (length (b ∷ bs)) (omega arith),
  overwrite-append done rest (b ∷ bs) n e h,
  append_assoc,
)

-- On a buffer that is large enough, and with a payload below `2 ^ 32` bytes, `MarshalTo` succeeds: the layout stands at the front, the bytes
-- behind it are as they were, and the count is `Size()`.
pub marshal_to-encode :
    (m : Message) (buf : List ℕ)
    → size m ≤ length buf
    → length m.payload.bytes < 2 ^ 32
    → marshal_to m buf ≡ ok (encode m ++ drop (size m) buf, size m)
unfolding marshal_to encode size
marshal_to-encode m buf room fits =
    let head = joined (header_chunks m) in
    let data_len = length m.payload.bytes in
    let len_bytes = le_bytes 4 data_len in
    let rest = drop 65 buf in
    let h65 = length-joined_header m in
    let h4 : length len_bytes ≡ 4 = length-le_bytes 4 data_len in
    let r65 : length rest ≡ length buf - 65 = length-drop 65 buf in
    rw
      (
        ltb_of_le (length buf) (size m) room,
        mod-eq_of_lt fits,
        put_chunks-append [] buf (header_chunks m) 0 refl (omega arith),
        h65,
        put_chunk-append head rest len_bytes 65 h65 (omega arith),
        h4,
        copy_payload (head ++ len_bytes) (drop 4 rest) m.payload.bytes 69
            (omega (arith, length-append head len_bytes)) (omega (arith, length-drop 4 rest)),
      )
      (rw (drop-drop 65 4 buf, drop-drop 69 data_len buf, append_assoc head len_bytes)
        (let e : 69 + data_len ≡ 65 + (4 + data_len) = omega arith in rw e))

-- Below that size the call fails, and it never panics.
pub marshal_to-small :
    (m : Message) (buf : List ℕ) → length buf < size m → marshal_to m buf ≡ err buffer_too_small
unfolding marshal_to
marshal_to-small m buf h = rw (lt→ltb (length buf) (size m) h)

-- `Marshal` returns the layout.
pub marshal-encode : (m : Message) → length m.payload.bytes < 2 ^ 32 → marshal m ≡ ok (encode m)
unfolding marshal
marshal-encode m fits =
    let zeros : List ℕ = replicate (size m) 0 in
    let n : length zeros ≡ size m = length-replicate (size m) 0 in
    rw (
      marshal_to-encode m zeros (omega arith) fits,
      drop_all (size m) zeros (omega arith),
      append-nil,
    )

-- Whatever the pooled buffer holds, if it is as large as asked for, `MarshalPooled` returns just the
-- layout: no byte of an earlier use shows.
pub marshal_pooled-encode :
    (m : Message) (buf : List ℕ)
    → size m ≤ length buf
    → length m.payload.bytes < 2 ^ 32
    → marshal_pooled m buf ≡ ok (encode m)
unfolding marshal_pooled
marshal_pooled-encode m buf room fits = rw (
  marshal_to-encode m buf room fits,
  take-length-append (size m) (encode m) (drop (size m) buf) (length-encode m),
)
