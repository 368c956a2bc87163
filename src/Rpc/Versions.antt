-- ===== src/Rpc/Versions.antt =====
-- What each operation on the slots makes of their versions.
use zhenyi.Prelude.{
  ℕ, zero, suc, ◌+◌, ◌%◌, ◌^◌, ◌≤◌, ◌≡◌, refl, ap, sym, ◌∙◌, inl, inr, subst, List, [], ◌∷◌, length,
  set, length-set, get_or-set_self, get_or-set_ne, arith, ◌==◌, ==_iff, ltb, Bool-cases,
  Option-cases, ltb→lt, ge_of_ltb,
}
use native.Mathlib.Nat.{mod-eq_of_lt}
use zhenyi.Rpc.Slots.{
  Sender, Slot, SlotState, free, waiting, abandoned, Reply, slot_at, put_slot, index_of,
  reply_expected, send_reply, set_reply, recycle_slot, check_in, add_sender, fresh_slot,
}
use zhenyi.Rpc.Reply.{receive, abandon_in}
use zhenyi.Rpc.Claim.{IsPool, HasRoom, Claimed}
use zhenyi.Rpc.Alloc.{add_sender-Claimed}

-- Versions go up, by at most one.
abbrev pub Aged : Sender → Sender → Type 0
Aged s t =
    (j : ℕ)
    → ((slot_at s j).version ≤ (slot_at t j).version)
      × ((slot_at t j).version ≤ (slot_at s j).version + 1)

set-outside : (xs : List Slot) (i : ℕ) (v : Slot) → length xs ≤ i → set xs i v ≡ xs
set-outside [] i v h = refl
set-outside (x ∷ xs) zero v h = absurd (omega arith)
set-outside (x ∷ xs) (suc i) v h = ap (λ ys. x ∷ ys) (set-outside xs i v (omega arith))

put_slot-Aged :
    (s : Sender) (idx : ℕ) (slot : Slot)
    → (slot_at s idx).version ≤ slot.version
    → slot.version ≤ (slot_at s idx).version + 1
    → Aged s (put_slot s idx slot)
put_slot-Aged s idx slot lo hi j = elim (Bool-cases (j == idx)) [
  | inl e ↦
      let f : j ≡ idx = (==_iff j idx).0 e in
      elim (Bool-cases (ltb idx (length s.slots))) [
        | inl g ↦
            let q = get_or-set_self s.slots idx slot fresh_slot (ltb→lt idx (length s.slots) g) in
            rw (f, q) (lo, hi)
        | inr g ↦
            let q = set-outside s.slots idx slot (ge_of_ltb idx (length s.slots) g) in
            rw q (omega arith, omega arith)
      ]
  | inr e ↦
      let q =
        get_or-set_ne s.slots idx j slot fresh_slot (λ f. let g = (==_iff j idx).1 (sym f) in cc) in
      rw q (omega arith, omega arith)
]

-- One step: the pool keeps its shape.
pub record Next (s t : Sender) : Type 0 where
  pub aged : Aged s t
  pub size : t.pool_size ≡ s.pool_size
  pub mask : t.index_mask ≡ s.index_mask
  pub many : length t.slots ≡ length s.slots

module _ (s t : Sender) (size : t.pool_size ≡ s.pool_size)
    (mask : t.index_mask ≡ s.index_mask) where
  Next-put :
      (idx : ℕ) (slot : Slot)
      → (slot_at s idx).version ≤ slot.version
      → slot.version ≤ (slot_at s idx).version + 1
      → t.slots ≡ set s.slots idx slot
      → Next s t
  Next-put idx slot lo hi e = record {
    aged = λ j. rw e (put_slot-Aged s idx slot lo hi j);
    size = size;
    mask = mask;
    many = ap length e ∙ length-set s.slots idx slot;
  }

  Next-same : t.slots ≡ s.slots → Next s t
  Next-same e = record {
    aged = λ j. rw e (omega arith, omega arith);
    size = size;
    mask = mask;
    many = ap length e;
  }

sends-Next : (r : Reply) (s : Sender) → Next s (send_reply s r)
unfolding send_reply
sends-Next r s =
    let idx = index_of s r.rpc_id in
    elim (Option-cases (slot_at s idx).ch) [
      | inl f ↦ rw (f, send_reply) (Next-put s _ refl refl idx _ (omega arith) (omega arith) refl)
      | inr (m, f) ↦ rw (f, send_reply) (Next-same s _ refl refl refl)
    ]

pub replies-Next : (r : Reply) (s : Sender) → Next s (set_reply s r)
unfolding set_reply
replies-Next r s = elim (Bool-cases (reply_expected s r.rpc_id)) [
  | inr e ↦ rw e (Next-same s s refl refl refl)
  | inl e ↦ rw e (sends-Next r s)
]

pub polls-Next : (rpc_id : ℕ) (s : Sender) → Next s (receive s rpc_id).0
unfolding receive
polls-Next rpc_id s =
    let idx = index_of s rpc_id in
    elim (Option-cases (slot_at s idx).ch) [
      | inl f ↦ rw (f, receive) (Next-same s s refl refl refl)
      | inr (m, f) ↦ elim (Bool-cases (m.rpc_id == rpc_id)) [
        | inl g ↦ rw (f, receive, g) (Next-put s _ refl refl idx _ (omega arith) (omega arith) refl)
        | inr g ↦ rw (f, receive, g) (Next-put s _ refl refl idx _ (omega arith) (omega arith) refl)
      ]
    ]

pub gives_up-Next : (st : SlotState) (idx now : ℕ) (s : Sender) → Next s (abandon_in st s idx now)
unfolding abandon_in
gives_up-Next waiting idx now s = Next-put s _ refl refl idx _ (omega arith) (omega arith) refl
gives_up-Next free idx now s = Next-same s s refl refl refl
gives_up-Next abandoned idx now s = Next-same s s refl refl refl

recycles-Next : (idx : ℕ) (s : Sender) → HasRoom s → Next s (recycle_slot s idx)
unfolding recycle_slot
recycles-Next idx s room =
    let h = room idx in
    let e : ((slot_at s idx).version + 1) % 2 ^ 64 ≡ (slot_at s idx).version + 1 =
      mod-eq_of_lt (omega arith) in
    elim (Option-cases (slot_at s idx).ch) [
      | inl f ↦
          rw (f, recycle_slot)
            (Next-put s _ refl refl idx _ (rw e (omega arith)) (rw e (omega arith)) refl)
      | inr (m, f) ↦
          rw (f, recycle_slot)
            (Next-put s _ refl refl idx _ (rw e (omega arith)) (rw e (omega arith)) refl)
    ]

pub checks-Next :
    (st : SlotState) (idx now : ℕ) (s : Sender) → HasRoom s → Next s (check_in st s idx now)
unfolding check_in
checks-Next free idx now s room = Next-same s s refl refl refl
checks-Next abandoned idx now s room =
    elim (Bool-cases (ltb ((slot_at s idx).timestamp + s.abandoned_recycle_delay) now)) [
      | inl e ↦ rw e (recycles-Next idx s room)
      | inr e ↦ rw e (Next-same s s refl refl refl)
    ]
checks-Next waiting idx now s room =
    elim (Bool-cases (ltb ((slot_at s idx).timestamp + s.waiting_force_recycle_ttl) now)) [
      | inl e ↦ rw e (recycles-Next idx s room)
      | inr e ↦ rw e (Next-same s s refl refl refl)
    ]

Claimed-Next : (k now id : ℕ) (s t : Sender) → IsPool k s → Claimed k now s t id → Next s t
Claimed-Next k now id s t p c = record {
  aged = λ j. elim (Bool-cases (j == c.idx)) [
    | inl e ↦
        let f : j ≡ c.idx = (==_iff j c.idx).0 e in
        let v = ap (λ o. o.version) c.slot in rw (f, v) (omega arith, omega arith)
    | inr e ↦
        let o = c.others j (λ f. let g = (==_iff j c.idx).1 f in cc) in
        rw o (omega arith, omega arith)
  ];
  size = c.pool.size ∙ sym p.size;
  mask = c.pool.mask ∙ sym p.mask;
  many = c.pool.many ∙ sym p.many;
}

pub calls-Next : (k now : ℕ) (s : Sender) → IsPool k s → HasRoom s → Next s (add_sender s now).0
calls-Next k now s p room = elim (add_sender-Claimed k now s p room) [
  | inl (t, id, e, c) ↦ subst (Next s) (sym (ap (λ r. r.0) e)) (Claimed-Next k now id s t p c)
  | inr (e, f, busy) ↦ subst (Next s) (sym f) (Next-same s _ refl refl refl)
]
