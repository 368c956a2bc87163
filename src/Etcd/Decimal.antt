-- ===== src/Etcd/Decimal.antt =====
-- zdiscovery/etcd.go: keys that are printed are read back.
use zhenyi.Prelude.{
  ℕ, ◌^◌, ◌<◌, ◌≤◌, ◌≡◌, refl, List, [], ◌∷◌, ◌++◌, none, some, All, length, arith, lt→ltb,
}
use zhenyi.Prelude.Digits.{
  decimal, parse_digits, parse_digits-decimal, decimal-long, decimal-digits,
}
use zhenyi.Etcd.Keys.{
  slash, servers, key_of, after_prefix, or_whole, trim_prefix, onto_first, split, after_last,
  in_bits, parse_uint, type_after, type_in, parse_key_to_actor_type, both, two_parts, parse_key,
}

parse_uint-long :
    (w n : ℕ) (s : List ℕ)
    → 0 < length s
    → parse_digits 0 s ≡ some n
    → n < 2 ^ w
    → parse_uint w s ≡ some n
unfolding parse_uint in_bits
parse_uint-long w n [] long e low = absurd (omega arith)
parse_uint-long w n (b ∷ s) long e low = rw (e, lt→ltb n (2 ^ w) low)

pub parse_uint-decimal : (w n : ℕ) → n < 2 ^ w → parse_uint w (decimal n) ≡ some n
parse_uint-decimal w n low =
    parse_uint-long w n (decimal n) (decimal-long n) (parse_digits-decimal n) low

pub split-digits : (s : List ℕ) → All (λ b. 48 ≤ b) s → split s ≡ s ∷ []
unfolding split onto_first
split-digits [] h = refl
split-digits (b ∷ s) (h, hs) = ground (arith, h, split-digits s hs)

split-append : (s rest : List ℕ) → All (λ b. 48 ≤ b) s → split (s ++ slash ∷ rest) ≡ s ∷ split rest
unfolding split onto_first
split-append [] rest h = refl
split-append (b ∷ s) rest (h, hs) = ground (arith, h, split-append s rest hs)

after_last-digits : (s : List ℕ) → All (λ b. 48 ≤ b) s → after_last s ≡ none
unfolding after_last
after_last-digits [] h = refl
after_last-digits (b ∷ s) (h, hs) = ground (arith, h, after_last-digits s hs)

after_last-append :
    (xs ys : List ℕ) → All (λ b. 48 ≤ b) ys → after_last (xs ++ slash ∷ ys) ≡ some ys
unfolding after_last
after_last-append [] ys h = rw (after_last-digits ys h)
after_last-append (x ∷ xs) ys h = rw (after_last-append xs ys h)

-- The fallback of a deletion reads from the key that `Register` prints for a uint32 type and a uint64 id
-- this type and id, and the searches read from "/servers/" and a printed uint32 type this type.
pub parse_key-key_of :
    (t id : ℕ)
    → t < 2 ^ 32
    → id < 2 ^ 64
    → (parse_key (key_of t id) ≡ some (t, id))
      × (parse_key_to_actor_type (slash ∷ servers ++ slash ∷ decimal t) ≡ some t)
unfolding parse_key key_of trim_prefix after_prefix or_whole two_parts both parse_key_to_actor_type
    type_in type_after
parse_key-key_of t id ht hi = (
  rw (
    split-append (decimal t) (decimal id) (decimal-digits t),
    split-digits (decimal id) (decimal-digits id),
    parse_uint-decimal 32 t ht,
    parse_uint-decimal 64 id hi,
  ),
  rw (after_last-append servers (decimal t) (decimal-digits t), parse_uint-decimal 32 t ht),
)
