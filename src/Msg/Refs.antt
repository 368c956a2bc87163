-- ===== src/Msg/Refs.antt =====
-- zmsg/msgpool.go: `GetMessage`, `Retain`, `Release`. One message with what `Release` does besides:
-- how often the message went back to the pool, and how often a double release was counted.
-- `RefCount` is the 32-bit pattern of an int32; `DEBUG_LIFECYCLE` is false (zmsg/lifecycle_off.go).
use zhenyi.Prelude.{
  ℕ, ◌+◌, ◌-◌, ◌%◌, ◌^◌, ◌<◌, ◌≡◌, refl, Bool, List, [], ◌∷◌, Option, none, some, arith, ltb, leb,
  ◌==◌, if◌then◌else◌,
}
use zhenyi.Msg.Envelope.{Message, Slice, nil_slice, pool_reset}

pub record Life : Type 0 where
  pub msg : Message
  pub pooled : ℕ
  pub double_releases : ℕ

abbrev pub count : Life → ℕ
count l = l.msg.ref_count

-- An int32 below 0.
abbrev pub is_negative : ℕ → Bool
is_negative pattern = leb (2 ^ 31) pattern

abbrev with_count : Life → ℕ → Life
with_count l n = record l { msg = record (l.msg) { ref_count = n } }

-- `GetMessage` on the message that the pool hands out.
unfoldable pub get_message : Life → Life
get_message l = record l { msg = record (pool_reset l.msg) { ref_count = 1 } }

unfoldable pub retain : Life → Life
retain l = with_count l ((count l + 1) % 2 ^ 32)

-- The slice that goes back with the message.
unfoldable pub trim : Slice → Slice
trim s = if ltb 4096 s.cap then nil_slice else s

unfoldable pub release : Life → Life
unfolding trim
release l =
    let new_ref = (count l + (2 ^ 32 - 1)) % 2 ^ 32 in
    if new_ref == 0
    then record l {
      msg = record (l.msg) { ref_count = 0; payload = trim l.msg.payload };
      pooled = l.pooled + 1;
    }
    else if is_negative new_ref
    then record l {
      msg = record (l.msg) { ref_count = 0 };
      double_releases = l.double_releases + 1;
    }
    else with_count l new_ref

pub data Op : Type 0 where
  retains releases : Op

unfoldable pub apply : Op → Life → Life
apply retains l = retain l
apply releases l = release l

unfoldable pub run : List Op → Life → Life
unfolding apply
run [] l = l
run (o ∷ os) l = run os (apply o l)

-- The count that the operations should leave, from `n`: `none` where one of them comes after the
-- last release, or where the count leaves the int32.
unfoldable pub owners : List Op → ℕ → Option ℕ
owners [] n = some n
owners (retains ∷ os) n =
    let rest = owners os (n + 1) in
    if n == 0 then none else if ltb (n + 1) (2 ^ 31) then rest else none
owners (releases ∷ os) n = let rest = owners os (n - 1) in if n == 0 then none else rest

-- One release of a message with owners.
pub release-count :
    (l : Life)
    → 0 < count l
    → count l < 2 ^ 31
    → (count (release l) ≡ count l - 1)
      × ((release l).pooled ≡ (if count l == 1 then l.pooled + 1 else l.pooled))
      × ((release l).double_releases ≡ l.double_releases)
unfolding release
release-count l pos small = ground arith

-- A release after the last one is counted, and does not put the message into the pool again.
pub release_again :
    (l : Life)
    → count l ≡ 0
    → (count (release l) ≡ 0)
      × ((release l).pooled ≡ l.pooled)
      × ((release l).double_releases ≡ l.double_releases + 1)
unfolding release
release_again l none_left = ground arith

pub retain-count :
    (l : Life)
    → count l + 1 < 2 ^ 31
    → (count (retain l) ≡ count l + 1)
      × ((retain l).pooled ≡ l.pooled)
      × ((retain l).double_releases ≡ l.double_releases)
unfolding retain
retain-count l small = ground arith

owners-zero : (os : List Op) (n : ℕ) → owners os 0 ≡ some n → (os ≡ []) × (n ≡ 0)
unfolding owners
owners-zero [] n e = (refl, ground arith)
owners-zero (retains ∷ os) n e = absurd (ground arith)
owners-zero (releases ∷ os) n e = absurd (ground arith)

-- Whatever the order in which the owners retain and release, as long as nobody acts after the last
-- release and the count stays in an int32, the count is the number of owners, the message goes to
-- the pool exactly when none is left, once, and no double release is counted.
pub run-owners :
    (os : List Op) (l : Life) (n : ℕ)
    → 0 < count l
    → count l < 2 ^ 31
    → owners os (count l) ≡ some n
    → (count (run os l) ≡ n)
      × ((run os l).pooled ≡ (if n == 0 then l.pooled + 1 else l.pooled))
      × ((run os l).double_releases ≡ l.double_releases)
unfolding run apply owners
run-owners [] l n pos small e = ground arith
run-owners (retains ∷ os) l n pos small e =
    ground (arith, retain-count l, run-owners os (retain l) n)
run-owners (releases ∷ os) l n pos small e =
    ground (arith, release-count l pos small, owners-zero os n, run-owners os (release l) n)
