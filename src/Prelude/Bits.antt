-- ===== src/Prelude/Bits.antt =====
-- Masks and shifted fields as arithmetic. The native operations stand for a recursion on digits,
-- whose count of digits to go is a variable here, so that the laws go by induction on it.
use Prim.Native.Nat.{
  ℕ, zero, suc, ◌+◌, ◌-◌, ◌*◌, ◌/◌, ◌%◌, ◌^◌, ◌≤◌, ◌<◌, min, max, bit_and, bit_or, digits,
  bit_and-bitwise, bit_or-bitwise,
}
use mathlib.Core.Path.{◌≡◌, refl, sym, ◌∙◌, ap}
use native.Mathlib.Nat.{
  pow-suc, one-le-pow, le_refl, mod-eq_of_lt, add-mul-mod_self_left, mod-lt, div-add-mod, zero-mod,
}
use native.Mathlib.Omega.{arith}

pub pow_pos : (k : ℕ) → 1 ≤ 2 ^ k
pow_pos k = one-le-pow k 2 (omega arith)

double_mod : (m x : ℕ) → 1 ≤ m → x / 2 % m * 2 + x % 2 ≡ x % (2 * m)
double_mod m x pos =
    let c : ℕ = x / 2 % m * 2 + x % 2 in
    let q : ℕ = x / 2 / m in
    let low : x / 2 % m < m = mod-lt (x / 2) pos in
    let e : x ≡ c + 2 * m * q = omega (arith, div-add-mod (x / 2) m) in
    sym (ap (λ t. t % (2 * m)) e ∙ (add-mul-mod_self_left c (2 * m) q ∙ mod-eq_of_lt (omega arith)))

two-pow : (k : ℕ) → 2 ^ suc k ≡ 2 * 2 ^ k
two-pow k = omega (arith, pow-suc 2 k)

half_mask : (k : ℕ) → ((2 ^ suc k - 1) / 2 ≡ 2 ^ k - 1) × ((2 ^ suc k - 1) % 2 ≡ 1)
half_mask k = omega (arith, pow-suc 2 k, pow_pos k)

-- The digits of a number under a mask of `k` ones.
masked : (n k a : ℕ) → a ≤ n → digits (λ b. zero) min n a (2 ^ k - 1) ≡ a % 2 ^ k
masked zero k zero h = sym (zero-mod (2 ^ k))
masked zero k (suc a) h = absurd (omega arith)
masked (suc n) k zero h = sym (zero-mod (2 ^ k))
masked (suc n) zero (suc a) h = omega (arith, masked n zero (suc a / 2) (omega arith))
masked (suc n) (suc k) (suc a) h =
    rw ((half_mask k).0, (half_mask k).1, masked n k (suc a / 2) (omega arith))
      (omega (arith, double_mod (2 ^ k) (suc a) (pow_pos k), ap (λ t. suc a % t) (two-pow k)))

-- The digits of a multiple of `2 ^ k`, with a number of fewer digits put into its low end.
filled : (n k q a r : ℕ) → a ≡ q * 2 ^ k → r < 2 ^ k → a ≤ n → digits (λ b. b) max n a r ≡ a + r
filled zero k q zero r e lt h = omega arith
filled zero k q (suc a) r e lt h = absurd (omega arith)
filled (suc n) k q zero r e lt h = omega arith
filled (suc n) zero q (suc a) r e lt h =
    omega (
      arith,
      filled n zero (suc a / 2) (suc a / 2) (r / 2) (omega arith) (omega arith) (omega arith),
    )
filled (suc n) (suc k) q (suc a) r e lt h =
    let even : suc a ≡ 2 * (q * 2 ^ k) = omega (arith, e, ap (λ t. q * t) (two-pow k)) in
    omega (
      arith,
      filled n k q (suc a / 2) (r / 2) (omega arith) (omega (arith, two-pow k)) (omega arith),
    )

-- `x & (2^k - 1)`
pub bit_and_mask : (k x : ℕ) → bit_and x (2 ^ k - 1) ≡ x % 2 ^ k
bit_and_mask k x = bit_and-bitwise x (2 ^ k - 1) ∙ masked x k x (le_refl x)

-- `(q << k) | r`
pub bit_or_fields : (k q r : ℕ) → r < 2 ^ k → bit_or (q * 2 ^ k) r ≡ q * 2 ^ k + r
bit_or_fields k q r lt =
    bit_or-bitwise (q * 2 ^ k) r ∙ filled (q * 2 ^ k) k q (q * 2 ^ k) r refl lt (le_refl _)

-- A smaller power divides a larger one.
pub pow_split : (n k : ℕ) → k ≤ n → (m : ℕ) × (2 ^ n ≡ 2 ^ k * m) × (1 ≤ m)
pow_split n zero h = (2 ^ n, omega arith, pow_pos n)
pow_split zero (suc k) h = absurd (omega arith)
pow_split (suc n) (suc k) h =
    let (m, e, pos) = pow_split n k (omega arith) in
    (m, omega (arith, e, two-pow n, two-pow k, ap (λ t. t * m) (two-pow k)), pos)

-- Arithmetic of 64 bits does not change the low ones.
pub mod_pow-mod_pow : (n k a : ℕ) → k ≤ n → a % 2 ^ n % 2 ^ k ≡ a % 2 ^ k
mod_pow-mod_pow n k a h =
    let (m, e, pos) = pow_split n k h in
    let r : ℕ = a % 2 ^ n in
    let q : ℕ = a / 2 ^ n in
    let f : a ≡ r + 2 ^ k * (m * q) = omega (arith, div-add-mod a (2 ^ n), ap (λ t. t * q) e) in
    sym (ap (λ t. t % 2 ^ k) f ∙ add-mul-mod_self_left r (2 ^ k) (m * q))
