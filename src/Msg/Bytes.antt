-- ===== src/Msg/Bytes.antt =====
-- Little-endian numbers (the standard library's `binary.LittleEndian`) over byte lists.
use native.Mathlib.Nat.{pow-suc}
use zhenyi.Prelude.{
  ℕ, zero, suc, ◌+◌, ◌*◌, ◌/◌, ◌%◌, ◌^◌, ◌<◌, ◌≡◌, refl, ap, List, [], ◌∷◌, arith, length, All,
}

abbrev pub IsByte : ℕ → Type 0
IsByte b = b < 256

-- `PutUint32` and `PutUint64` write `le_bytes 4 v` and `le_bytes 8 v`.
unfoldable pub le_bytes : ℕ → ℕ → List ℕ
le_bytes zero v = []
le_bytes (suc n) v = v % 256 ∷ le_bytes n (v / 256)

-- `Uint32` and `Uint64` of the bytes that they take.
unfoldable pub le_value : List ℕ → ℕ
le_value [] = 0
le_value (b ∷ bs) = b + 256 * le_value bs

pub length-le_bytes : (n v : ℕ) → length (le_bytes n v) ≡ n
unfolding le_bytes
length-le_bytes zero v = refl
length-le_bytes (suc n) v = ap suc (length-le_bytes n (v / 256))

pub le_bytes-IsByte : (n v : ℕ) → All IsByte (le_bytes n v)
unfolding le_bytes
le_bytes-IsByte zero v = tt
le_bytes-IsByte (suc n) v = (omega arith, le_bytes-IsByte n (v / 256))

smaller : (n v : ℕ) → v < 256 ^ suc n → v / 256 < 256 ^ n
smaller n v h = omega (arith, pow-suc 256 n)

pub le_value-le_bytes : (n v : ℕ) → v < 256 ^ n → le_value (le_bytes n v) ≡ v
unfolding le_bytes le_value
le_value-le_bytes zero v h = omega arith
le_value-le_bytes (suc n) v h = omega (arith, le_value-le_bytes n (v / 256) (smaller n v h))
