-- ===== src/Msg/Accept.antt =====
-- `Unmarshal` on any buffer, well formed or not.
use zhenyi.Prelude.{
  ℕ, ◌+◌, ◌≤◌, ◌≡◌, refl, List, length, arith, ltb, ltb→lt, ge_of_ltb, ◌⊎◌, inl, inr, Bool-cases,
}
use zhenyi.Prelude.Outcome.{Outcome, ok, err}
use zhenyi.Msg.Envelope.{
  data_corrupt, Failure, Message, unmarshal_payload, unmarshal_data, unmarshal,
  max_message_data_size,
}
use zhenyi.Msg.Decode.{field, header_of, read-field, header-header_of}

-- What the format asks of a buffer: a header, a count, and as many bytes as the count says.
pub record Accepts (buf : List ℕ) : Type 0 where
  pub headed : 69 ≤ length buf
  pub small : field buf 65 4 ≤ max_message_data_size
  pub whole : 69 + field buf 65 4 ≤ length buf

abbrev pub Decided : List ℕ → Outcome Failure Message → Type 0
Decided buf r =
    (Accepts buf × (m : Message) × (r ≡ ok m))
    ⊎ ((¬ Accepts buf) × (m : Message) × (r ≡ err (m, data_corrupt)))

payload_decides :
    (m : Message) (buf : List ℕ)
    → 69 ≤ length buf
    → Decided buf (unmarshal_payload m buf (field buf 65 4))
unfolding unmarshal_payload
payload_decides m buf h = elim (Bool-cases (ltb max_message_data_size (field buf 65 4))) [
  | inl big ↦ rw big (inr (λ a. absurd (omega (arith, ltb→lt _ _ big, a.small)), m, refl))
  | inr small ↦ rw small (elim (Bool-cases (ltb 0 (field buf 65 4))) [
    | inl pos ↦ rw pos (elim (Bool-cases (ltb (length buf) (69 + field buf 65 4))) [
      | inl short ↦ rw short (inr (λ a. absurd (omega (arith, ltb→lt _ _ short, a.whole)), m, refl))
      | inr fits ↦ rw fits (
          inl (
            record { headed = h; small = ge_of_ltb _ _ small; whole = ge_of_ltb _ _ fits },
            _,
            refl,
          ))
    ])
    | inr empty ↦ rw empty (
        inl (
          record {
            headed = h;
            small = ge_of_ltb _ _ small;
            whole = omega (arith, ge_of_ltb _ _ empty);
          },
          _,
          refl,
        ))
  ])
]

-- On every buffer `Unmarshal` ends with a message or with `ErrDataCorrupt`, never in a panic, and
-- it takes exactly the buffers that the format asks for.
pub unmarshal_decides : (m : Message) (buf : List ℕ) → Decided buf (unmarshal m buf)
unfolding unmarshal unmarshal_data
unmarshal_decides m buf = elim (Bool-cases (ltb (length buf) 65)) [
  | inl short ↦ rw short (inr (λ a. absurd (omega (arith, ltb→lt _ _ short, a.headed)), m, refl))
  | inr headed ↦
      rw (headed, header-header_of m buf (ge_of_ltb _ _ headed))
        (elim (Bool-cases (ltb (length buf) (65 + 4))) [
          | inl short ↦
              rw short (
                inr
                  (λ a. absurd (omega (arith, ltb→lt _ _ short, a.headed)), header_of m buf, refl))
          | inr counted ↦
              rw (counted, read-field buf 65 4 (ge_of_ltb _ _ counted))
                (payload_decides (header_of m buf) buf (ge_of_ltb _ _ counted))
        ])
]
