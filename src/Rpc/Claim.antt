-- ===== src/Rpc/Claim.antt =====
-- What `AddSender` claims, on every branch.
use native.Mathlib.Nat.{mod-eq_of_lt, add-mul-mod_self_left}
use zhenyi.Prelude.Bits.{bit_and_mask, bit_or_fields, pow_split}
use zhenyi.Prelude.{
  ℕ, ◌+◌, ◌-◌, ◌*◌, ◌/◌, ◌%◌, ◌^◌, ◌≤◌, ◌<◌, ◌≡◌, ap, sym, ◌∙◌, ◌≢◌, some, length, length-set,
  get_or-set_self, get_or-set_ne, arith, ==_ne,
}
use zhenyi.Rpc.Slots.{
  Sender, Slot, free, waiting, slot_at, put_slot, index_of, version_of, rpc_id_of, claim,
  fresh_slot,
}

-- A pool of `2 ^ k` slots, whose versions do not come near the end of their 48 bits.
pub record IsPool (k : ℕ) (s : Sender) : Type 0 where
  pub bits : k ≤ 16
  pub size : s.pool_size ≡ 2 ^ k
  pub mask : s.index_mask ≡ 2 ^ k - 1
  pub many : length s.slots ≡ 2 ^ k

abbrev pub HasRoom : Sender → Type 0
HasRoom s = (idx : ℕ) → (slot_at s idx).version + 1 < 2 ^ 48

pub index_of-mod : {k : ℕ} {s : Sender} (n : ℕ) → IsPool k s → index_of s n ≡ n % 2 ^ k
index_of-mod {k} n p = rw p.mask (bit_and_mask k n)

pow_sixteen : (k : ℕ) → k ≤ 16 → 2 ^ k ≤ 65536
pow_sixteen k h =
    let (m, e, pos) = pow_split 16 k h in let f : 65536 ≡ 2 ^ k * m = e in grind (arith, f, pos)

rpc_id_of-fields : (v idx : ℕ) → v < 2 ^ 48 → idx < 65536 → rpc_id_of v idx ≡ v * 65536 + idx
unfolding rpc_id_of
rpc_id_of-fields v idx small lt =
    let fits : v * 65536 < 2 ^ 64 = omega arith in rw (mod-eq_of_lt fits, bit_or_fields 16 v idx lt)

low_bits_of_id : (k v idx : ℕ) → k ≤ 16 → idx < 2 ^ k → (v * 65536 + idx) % 2 ^ k ≡ idx
low_bits_of_id k v idx h lt =
    let (m, e, pos) = pow_split 16 k h in
    let f : v * 65536 + idx ≡ idx + 2 ^ k * (v * m) =
      omega (arith, ap (λ t. v * t) (let f : 65536 ≡ 2 ^ k * m = e in f)) in
    ap (λ t. t % 2 ^ k) f ∙ (add-mul-mod_self_left idx (2 ^ k) (v * m) ∙ mod-eq_of_lt lt)

-- What a successful call leaves.
pub record Claimed (k now : ℕ) (s t : Sender) (rpc_id : ℕ) : Type 0 where
  pub idx : ℕ
  pub in_pool : idx < 2 ^ k
  pub was_free : (slot_at s idx).state ≡ free
  pub index : rpc_id % 2 ^ k ≡ idx
  pub version : version_of rpc_id ≡ (slot_at s idx).version + 1
  pub slot : slot_at t idx ≡ record {
    ch = (slot_at s idx).ch;
    version = (slot_at s idx).version + 1;
    state = waiting;
    timestamp = now;
  }
  pub others : (j : ℕ) → j ≢ idx → slot_at t j ≡ slot_at s j
  pub pool : IsPool k t

pub claim-Claimed :
    (k now idx : ℕ) (s : Sender)
    → IsPool k s
    → HasRoom s
    → idx < 2 ^ k
    → (slot_at s idx).state ≡ free
    → (t : Sender) × (rpc_id : ℕ) × (claim s idx now ≡ (t, some rpc_id)) × Claimed k now s t rpc_id
unfolding claim
claim-Claimed k now idx s p room lt e =
    let v = (slot_at s idx).version in
    let id = rpc_id_of (v + 1) idx in
    let below : idx < 65536 = omega (arith, pow_sixteen k p.bits) in
    let small : v + 1 < 2 ^ 64 = omega (arith, room idx) in
    let shape : id ≡ (v + 1) * 65536 + idx = rpc_id_of-fields (v + 1) idx (room idx) below in
    let slot : Slot = record {
      ch = (slot_at s idx).ch;
      version = v + 1;
      state = waiting;
      timestamp = now;
    } in
    (
      put_slot s idx slot,
      id,
      rw (mod-eq_of_lt small, ==_ne id 0 (λ q. absurd (omega arith))),
      record {
        idx = idx;
        in_pool = lt;
        was_free = e;
        index = ap (λ t. t % 2 ^ k) shape ∙ low_bits_of_id k (v + 1) idx p.bits lt;
        version = ap (λ t. t / 65536) shape ∙ omega arith;
        slot = get_or-set_self s.slots idx slot fresh_slot (omega (arith, p.many));
        others = λ j ne. get_or-set_ne s.slots idx j slot fresh_slot (λ q. ne (sym q));
        pool = record {
          bits = p.bits;
          size = p.size;
          mask = p.mask;
          many = length-set s.slots idx slot ∙ p.many;
        };
      },
    )
