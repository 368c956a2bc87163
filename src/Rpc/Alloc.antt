-- ===== src/Rpc/Alloc.antt =====
-- `AddSender` fails only when every slot is taken.
use native.Mathlib.Nat.{mod-lt, mod-eq_of_lt, add-mod-mod, mod-add-mod, add-mod_right, add-zero}
use zhenyi.Prelude.Bits.{pow_pos, mod_pow-mod_pow}
use zhenyi.Prelude.{
  ℕ, zero, suc, ◌+◌, ◌-◌, ◌%◌, ◌^◌, ◌≤◌, ◌<◌, ◌≡◌, refl, ap, sym, ◌∙◌, ◌≢◌, ◌⊎◌, inl, inr, subst,
  Option, none, some, arith,
}
use zhenyi.Rpc.Slots.{
  Sender, SlotState, free, waiting, abandoned, slot_at, index_of, claim, try_slot, add_from,
  add_sender,
}
use zhenyi.Rpc.Claim.{IsPool, HasRoom, index_of-mod, Claimed, claim-Claimed}

free_cases : (st : SlotState) → (st ≡ free) ⊎ (st ≢ free)
free_cases free = inl refl
free_cases waiting = inr (λ e. cc)
free_cases abandoned = inr (λ e. cc)

try_slot_busy :
    (st : SlotState) (s : Sender) (idx now : ℕ) → st ≢ free → try_slot st s idx now ≡ (s, none)
unfolding try_slot
try_slot_busy free s idx now h = absurd (h refl)
try_slot_busy waiting s idx now h = refl
try_slot_busy abandoned s idx now h = refl

try_slot_free :
    (st : SlotState) (s : Sender) (idx now : ℕ)
    → st ≡ free
    → try_slot st s idx now ≡ claim s idx now
unfolding try_slot
try_slot_free free s idx now h = refl
try_slot_free waiting s idx now h = cc
try_slot_free abandoned s idx now h = cc

-- The positions that a run of rounds looks at, reduced to slots.
abbrev AllBusy : ℕ → ℕ → ℕ → Sender → Type 0
AllBusy k rounds pos s = (i : ℕ) → i < rounds → (slot_at s ((pos + i) % 2 ^ k)).state ≢ free

abbrev Added : ℕ → ℕ → ℕ → ℕ → Sender → Sender × Option ℕ → Type 0
Added k rounds pos now s r =
    ((t : Sender) × (rpc_id : ℕ) × (r ≡ (t, some rpc_id)) × Claimed k now s t rpc_id)
    ⊎ ((r ≡ (s, none)) × AllBusy k rounds pos s)

next_index : (k pos i : ℕ) → k ≤ 16 → (pos + suc i) % 2 ^ k ≡ ((pos + 1) % 2 ^ 64 + i) % 2 ^ k
next_index k pos i bits =
    let m : ℕ = 2 ^ k in
    let x : ℕ = (pos + 1) % 2 ^ 64 in
    let e : pos + suc i ≡ pos + 1 + i = omega arith in
    let f : x % m ≡ (pos + 1) % m = mod_pow-mod_pow 64 k (pos + 1) (omega arith) in
    ap (λ t. t % m) e
    ∙ (sym (mod-add-mod (pos + 1) m i) ∙ (ap (λ t. (t + i) % m) (sym f) ∙ mod-add-mod x m i))

AllBusy-suc :
    (k rounds pos : ℕ) (s : Sender)
    → k ≤ 16
    → (slot_at s (pos % 2 ^ k)).state ≢ free
    → AllBusy k rounds ((pos + 1) % 2 ^ 64) s
    → AllBusy k (suc rounds) pos s
AllBusy-suc k rounds pos s bits here later zero lt = rw (add-zero pos) here
AllBusy-suc k rounds pos s bits here later (suc i) lt =
    rw (next_index k pos i bits) (later i (omega arith))

module _ (rounds pos now : ℕ) (s : Sender) where
  go_on : Sender × Option ℕ → Sender × Option ℕ
  go_on r = elim r.1 [
    | some rpc_id ↦ (r.0, some rpc_id)
    | none ↦ add_from rounds ((pos + 1) % 2 ^ 64) now r.0
  ]

  add_from_found :
      (t : Sender) (rpc_id : ℕ)
      → try_slot (slot_at s (index_of s pos)).state s (index_of s pos) now ≡ (t, some rpc_id)
      → add_from (suc rounds) pos now s ≡ (t, some rpc_id)
  unfolding add_from go_on
  add_from_found t rpc_id e = ap go_on e

  add_from_next :
      try_slot (slot_at s (index_of s pos)).state s (index_of s pos) now ≡ (s, none)
      → add_from (suc rounds) pos now s ≡ add_from rounds ((pos + 1) % 2 ^ 64) now s
  unfolding add_from go_on
  add_from_next e = ap go_on e

add_from-Added :
    (k rounds pos now : ℕ) (s : Sender)
    → IsPool k s
    → HasRoom s
    → Added k rounds pos now s (add_from rounds pos now s)
unfolding add_from
add_from-Added k zero pos now s p room = inr (refl, λ i lt. absurd (omega arith))
add_from-Added k (suc rounds) pos now s p room =
    let idx = index_of s pos in
    let at : idx ≡ pos % 2 ^ k = index_of-mod pos p in
    elim (free_cases (slot_at s idx).state) [
      | inl is_free ↦
          let lt : idx < 2 ^ k = subst (λ t. t < 2 ^ k) (sym at) (mod-lt pos (pow_pos k)) in
          let (t, id, e, c) = claim-Claimed k now idx s p room lt is_free in
          inl
            (t, id, add_from_found rounds pos now s t id (try_slot_free _ s idx now is_free ∙ e), c)
      | inr busy ↦
          rw (add_from_next rounds pos now s (try_slot_busy _ s idx now busy))
            (elim (add_from-Added k rounds ((pos + 1) % 2 ^ 64) now s p room) [
              | inl added ↦ inl added
              | inr (e, all) ↦ inr (e, AllBusy-suc k rounds pos s p.bits (rw (sym at) busy) all)
            ])
    ]

-- Where the loop that starts at `start` looks at slot `idx`.
turn : ℕ → ℕ → ℕ → ℕ
turn n start idx = (idx + (n - start % n)) % n

turn_lem :
    (n start idx : ℕ)
    → 0 < n
    → idx < n
    → (turn n start idx < n) × ((start + turn n start idx) % n ≡ idx)
unfolding turn
turn_lem n start idx pos lt =
    let a : ℕ = start % n in
    let b : ℕ = idx + (n - a) in
    let small : a < n = mod-lt start pos in
    let e : a + b ≡ idx + n = omega arith in
    (
      mod-lt b pos,
      add-mod-mod start b n
          ∙ (sym (mod-add-mod start n b)
              ∙ (ap (λ t. t % n) e ∙ (add-mod_right idx n ∙ mod-eq_of_lt lt))),
    )

-- On a pool whose versions are below `2 ^ 48 - 1`, `AddSender` either claims a slot that was free
-- (the id it returns carries the slot's index and its new version, the slot waits, and no other
-- slot changes), or it returns the error, moves the cursor only, and then no slot of the pool was
-- free.
pub add_sender-Claimed :
    (k now : ℕ) (s : Sender)
    → IsPool k s
    → HasRoom s
    → ((t : Sender) × (rpc_id : ℕ) × (add_sender s now ≡ (t, some rpc_id))
        × Claimed k now s t rpc_id)
      ⊎ ((add_sender s now).1 ≡ none)
        × ((add_sender s now).0 ≡ record s { cursor = (s.cursor + 1) % 2 ^ 64 })
        × ((idx : ℕ) → idx < 2 ^ k → (slot_at s idx).state ≢ free)
unfolding add_sender
add_sender-Claimed k now s p room =
    let start : ℕ = (s.cursor + 1) % 2 ^ 64 in
    let s1 : Sender = record s { cursor = start } in
    let p1 : IsPool k s1 = record { bits = p.bits; size = p.size; mask = p.mask; many = p.many } in
    elim (add_from-Added k s.pool_size start now s1 p1 room) [
      | inl (t, id, e, c) ↦ inl (
        t,
        id,
        e,
        record {
          idx = c.idx;
          in_pool = c.in_pool;
          was_free = c.was_free;
          index = c.index;
          version = c.version;
          slot = c.slot;
          others = c.others;
          pool = c.pool;
        },
      )
      | inr (e, all) ↦ inr (
        ap (λ r. r.1) e,
        ap (λ r. r.0) e,
        λ idx lt.
            let (below, at) = turn_lem (2 ^ k) start idx (pow_pos k) lt in
            rw (sym at) (all (turn (2 ^ k) start idx) (rw p.size below)),
      )
    ]
