-- ===== src/Rpc/Late.antt =====
-- What becomes of a slot's version over a history of calls, and of a reply that comes too late.
use zhenyi.Prelude.{
  ℕ, ◌+◌, ◌^◌, ◌≤◌, ◌<◌, ◌≡◌, refl, ap, ◌∙◌, false, List, [], ◌∷◌, length, arith, ◌==◌, ==_ne,
}
use Prim.Native.Nat.{bit_and}
use native.Mathlib.Nat.{le_refl}
use zhenyi.Rpc.Slots.{
  Sender, Reply, slot_at, index_of, version_of, reply_expected, set_reply, check_slot, add_sender,
}
use zhenyi.Rpc.Reply.{receive, abandon}
use zhenyi.Rpc.Claim.{IsPool, HasRoom}
use zhenyi.Rpc.Versions.{Next, replies-Next, polls-Next, gives_up-Next, checks-Next, calls-Next}

pub data Op : Type 0 where
  calls : ℕ → Op
  replies : Reply → Op
  polls : ℕ → Op
  gives_up : ℕ → ℕ → Op
  checks : ℕ → ℕ → Op

unfoldable pub apply : Op → Sender → Sender
apply (calls now) s = (add_sender s now).0
apply (replies r) s = set_reply s r
apply (polls rpc_id) s = (receive s rpc_id).0
apply (gives_up rpc_id now) s = abandon s (index_of s rpc_id) now
apply (checks idx now) s = check_slot s idx now

unfoldable pub apply_all : List Op → Sender → Sender
apply_all [] s = s
apply_all (o ∷ os) s = apply_all os (apply o s)

apply-Next : (o : Op) (k : ℕ) (s : Sender) → IsPool k s → HasRoom s → Next s (apply o s)
unfolding apply abandon check_slot
apply-Next (calls now) k s p room = calls-Next k now s p room
apply-Next (replies r) k s p room = replies-Next r s
apply-Next (polls rpc_id) k s p room = polls-Next rpc_id s
apply-Next (gives_up rpc_id now) k s p room =
    gives_up-Next (slot_at s (index_of s rpc_id)).state (index_of s rpc_id) now s
apply-Next (checks idx now) k s p room = checks-Next (slot_at s idx).state idx now s room

Next-IsPool : (k : ℕ) (s t : Sender) → IsPool k s → Next s t → IsPool k t
Next-IsPool k s t p n = record {
  bits = p.bits;
  size = n.size ∙ p.size;
  mask = n.mask ∙ p.mask;
  many = n.many ∙ p.many;
}

apply_all-version :
    (os : List Op) (k idx : ℕ) (s : Sender)
    → IsPool k s
    → ((j : ℕ) → (slot_at s j).version + length os < 2 ^ 48)
    → (slot_at s idx).version ≤ (slot_at (apply_all os s) idx).version
unfolding apply_all
apply_all-version [] k idx s p room = le_refl _
apply_all-version (o ∷ os) k idx s p room =
    let n = apply-Next o k s p (λ j. let h = room j in omega arith) in
    let here = n.aged idx in
    let later =
      apply_all-version os k idx (apply o s) (Next-IsPool k s (apply o s) p n)
        (λ j. let h = room j in let a = n.aged j in omega (arith, h, a.1)) in
    omega (arith, here.0, later)

apply_all-index_mask :
    (os : List Op) (k : ℕ) (s : Sender)
    → IsPool k s
    → ((j : ℕ) → (slot_at s j).version + length os < 2 ^ 48)
    → (apply_all os s).index_mask ≡ s.index_mask
unfolding apply_all
apply_all-index_mask [] k s p room = refl
apply_all-index_mask (o ∷ os) k s p room =
    let n = apply-Next o k s p (λ j. let h = room j in omega arith) in
    apply_all-index_mask os k (apply o s) (Next-IsPool k s (apply o s) p n)
      (λ j. let h = room j in let a = n.aged j in omega (arith, h, a.1))
    ∙ n.mask

-- Once the slot of an id has a later version than the id, a reply with that id is dropped, after
-- whatever calls, replies, polls, abandoned waits and watchdog checks, as long as no version comes
-- near `2 ^ 48`: it cannot reach a later call in the same slot.
pub late_reply_dropped :
    (os : List Op) (k : ℕ) (s : Sender) (r : Reply)
    → IsPool k s
    → ((j : ℕ) → (slot_at s j).version + length os < 2 ^ 48)
    → version_of r.rpc_id < (slot_at s (index_of s r.rpc_id)).version
    → set_reply (apply_all os s) r ≡ apply_all os s
unfolding set_reply reply_expected
late_reply_dropped os k s r p room late =
    let t = apply_all os s in
    let same : index_of t r.rpc_id ≡ index_of s r.rpc_id =
      ap (λ m. bit_and r.rpc_id m) (apply_all-index_mask os k s p room) in
    let grown = apply_all-version os k (index_of s r.rpc_id) s p room in
    let ne : ((slot_at t (index_of t r.rpc_id)).version == version_of r.rpc_id) ≡ false =
      ==_ne _ _ (λ e. absurd (omega (arith, grown, ap (λ i. (slot_at t i).version) same))) in
    rw ne
