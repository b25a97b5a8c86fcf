-- ===== src/Prelude/Integers.antt =====
-- The numbers of the language, as far as the program looks at them.
use Prim.Native.Nat.{ℕ, ◌+◌, ◌-◌, ◌<◌}
use mathlib.Core.Path.{◌≡◌}
use mathlib.Core.Bool.{Bool, true, false}
use mathlib.Core.Option.{Option, none, some}
use native.Mathlib.Omega.{arith}
use adonis_authkit.Prelude.Tests.{leb, ltb, if◌then◌else◌}

-- `negsuc n` is -(n + 1).
pub data ℤ : Type 0 where
  pos : ℕ → ℤ
  negsuc : ℕ → ℤ

-- A JavaScript number: not finite, an integer, or a fraction together with its floor.
pub data JsNumber : Type 0 where
  not_finite : JsNumber
  integer : ℤ → JsNumber
  fraction : ℤ → JsNumber

-- A number that a setting holds: NaN, an integer, or a fraction together with its floor. JSON has no
-- infinite number; one in the config of a host, which the resolvers would keep, is not among these.
pub data SettingNumber : Type 0 where
  nan : SettingNumber
  whole : ℤ → SettingNumber
  part : ℤ → SettingNumber

abbrev pub floor : SettingNumber → Option ℤ
floor nan = none
floor (whole z) = some z
floor (part z) = some z

abbrev pub at_least : ℕ → Option ℤ → Option ℕ
at_least low (some (pos n)) = if leb low n then some n else none
at_least low _ = none

-- `typeof x === 'number' && x >= low ? Math.floor(x) : fallback`, for a whole bound.
abbrev pub or_default : Option ℕ → ℕ → ℕ
or_default none fallback = fallback
or_default (some n) fallback = n

abbrev pub floor_or : ℕ → ℕ → Option SettingNumber → ℕ
floor_or low fallback none = fallback
floor_or low fallback (some x) = or_default (at_least low (floor x)) fallback

abbrev pub add_offset : ℕ → ℤ → ℤ
add_offset n (pos d) = pos (n + d)
add_offset n (negsuc d) = if ltb d n then pos (n - (d + 1)) else negsuc (d - n)

abbrev pub leb_ℤ : ℤ → ℤ → Bool
leb_ℤ (pos m) (pos n) = leb m n
leb_ℤ (pos m) (negsuc n) = false
leb_ℤ (negsuc m) (pos n) = true
leb_ℤ (negsuc m) (negsuc n) = leb n m

-- The order of the integers, as a relation.
abbrev pub Before : ℤ → ℤ → Type 0
Before (pos m) (pos n) = m < n
Before (pos m) (negsuc n) = ⊥
Before (negsuc m) (pos n) = Unit
Before (negsuc m) (negsuc n) = n < m

pub Before-of_not-leb_ℤ : (a b : ℤ) → leb_ℤ b a ≡ false → Before a b
Before-of_not-leb_ℤ (pos a) (pos b) h = ground arith
Before-of_not-leb_ℤ (pos a) (negsuc b) h = absurd (cc h)
Before-of_not-leb_ℤ (negsuc a) (pos b) h = tt
Before-of_not-leb_ℤ (negsuc a) (negsuc b) h = ground arith

pub leb_ℤ_trans_not : (a b c : ℤ) → leb_ℤ a b ≡ true → leb_ℤ c b ≡ false → leb_ℤ c a ≡ false
leb_ℤ_trans_not (pos a) (pos b) (pos c) h k = ground arith
leb_ℤ_trans_not (pos a) (pos b) (negsuc c) h k = absurd (cc k)
leb_ℤ_trans_not (pos a) (negsuc b) c h k = absurd (cc h)
leb_ℤ_trans_not (negsuc a) (pos b) (pos c) h k = ground arith
leb_ℤ_trans_not (negsuc a) (pos b) (negsuc c) h k = absurd (cc k)
leb_ℤ_trans_not (negsuc a) (negsuc b) (pos c) h k = ground arith
leb_ℤ_trans_not (negsuc a) (negsuc b) (negsuc c) h k = ground arith

pub leb_ℤ_flip : (a b : ℤ) → leb_ℤ a b ≡ false → leb_ℤ b a ≡ true
leb_ℤ_flip (pos a) (pos b) h = ground arith
leb_ℤ_flip (pos a) (negsuc b) h = ground arith
leb_ℤ_flip (negsuc a) (pos b) h = absurd (cc h)
leb_ℤ_flip (negsuc a) (negsuc b) h = ground arith

pub leb_ℤ_refl : (a : ℤ) → leb_ℤ a a ≡ true
leb_ℤ_refl (pos a) = ground arith
leb_ℤ_refl (negsuc a) = ground arith
