-- ===== src/Prelude/Int.antt =====
-- Signed integers over the native numbers, and the casts between `u64` and `i64`.
use Prim.Native.Nat.{ℕ, suc, ◌+◌, ◌-◌, ◌%◌, ◌≤◌, ◌<◌}
use mathlib.Core.Path.{◌≡◌}
use mathlib.Core.Logic.{◌↔◌}
use mathlib.Core.Bool.{Bool, true, ◌&&◌}
use mathlib.Core.Option.{Option, none, some}
use mathlib.Core.Logic.{◌⊎◌, inl, inr}
use native.Mathlib.Decide.{dec_lt}
use native.Mathlib.Omega.{arith}
use qa_sys.Prelude.Tests.{ltb, leb, ◌==◌, if◌then◌else◌}

-- `negsuc n` is -(n + 1).
pub data ℤ : Type 0 where
  pos : ℕ → ℤ
  negsuc : ℕ → ℤ

abbrev pub pos_part : ℤ → ℕ
pos_part (pos n) = n
pos_part (negsuc n) = 0

abbrev pub neg_part : ℤ → ℕ
neg_part (pos n) = 0
neg_part (negsuc n) = suc n

-- a - b, as an integer.
abbrev pub sub_ℕ : ℕ → ℕ → ℤ
sub_ℕ a b = if leb b a then pos (a - b) else negsuc (b - a - 1)

infixl 65 ◌+ℤ◌ ◌-ℤ◌
infix 50 ◌≤ℤ◌ ◌<ℤ◌
unfoldable pub ◌+ℤ◌ : ℤ → ℤ → ℤ
a +ℤ b = sub_ℕ (pos_part a + pos_part b) (neg_part a + neg_part b)

unfoldable pub ◌-ℤ◌ : ℤ → ℤ → ℤ
a -ℤ b = sub_ℕ (pos_part a + neg_part b) (neg_part a + pos_part b)

abbrev pub ◌≤ℤ◌ : ℤ → ℤ → Type 0
a ≤ℤ b = pos_part a + neg_part b ≤ pos_part b + neg_part a

abbrev pub ◌<ℤ◌ : ℤ → ℤ → Type 0
a <ℤ b = pos_part a + neg_part b < pos_part b + neg_part a

abbrev pub ltb_ℤ : ℤ → ℤ → Bool
ltb_ℤ a b = ltb (pos_part a + neg_part b) (pos_part b + neg_part a)

abbrev pub leb_ℤ : ℤ → ℤ → Bool
leb_ℤ a b = leb (pos_part a + neg_part b) (pos_part b + neg_part a)

abbrev pub eq_ℤ : ℤ → ℤ → Bool
eq_ℤ a b = pos_part a == pos_part b && neg_part a == neg_part b

pub eq_ℤ_iff : (a b : ℤ) → (eq_ℤ a b ≡ true) ↔ (a ≡ b)
eq_ℤ_iff a b = ground arith

pub +ℤ_parts :
    (a b : ℤ)
    → pos_part (a +ℤ b) + neg_part a + neg_part b ≡ neg_part (a +ℤ b) + pos_part a + pos_part b
unfolding ◌+ℤ◌
+ℤ_parts a b = ground arith

pub -ℤ_parts :
    (a b : ℤ)
    → pos_part (a -ℤ b) + neg_part a + pos_part b ≡ neg_part (a -ℤ b) + pos_part a + neg_part b
unfolding ◌-ℤ◌
-ℤ_parts a b = ground arith

pub eq_of_parts : (a b : ℤ) → pos_part a + neg_part b ≡ pos_part b + neg_part a → a ≡ b
eq_of_parts a b h = ground arith

pub ruleset int_laws = (arith, +ℤ_parts, -ℤ_parts, eq_of_parts)

-- 2 ^ 63 and 2 ^ 64.
abbrev pub i64_half : ℕ
i64_half = 9223372036854775808

abbrev pub u64_mod : ℕ
u64_mod = 18446744073709551616

-- Whether an integer is a value of `i64`.
abbrev pub fits_i64 : ℤ → Bool
fits_i64 (pos n) = ltb n i64_half
fits_i64 (negsuc n) = ltb n i64_half

-- `x as i64` of a `u64`: the same bits.
unfoldable pub as_i64 : ℕ → ℤ
as_i64 x =
    if ltb (x % u64_mod) i64_half then pos (x % u64_mod) else negsuc (u64_mod - 1 - x % u64_mod)

-- `z as u64` of an `i64`: the same bits.
unfoldable pub as_u64 : ℤ → ℕ
as_u64 (pos n) = n % u64_mod
as_u64 (negsuc n) = u64_mod - 1 - n % u64_mod

-- An `i64` result as a release build leaves it, which wraps.
unfoldable pub wrap_i64 : ℤ → ℤ
unfolding as_i64 as_u64
wrap_i64 z = as_i64 (as_u64 z)

-- `i64::try_from(x)` of a `u64`.
unfoldable pub try_i64 : ℕ → Option ℤ
try_i64 x = if ltb x i64_half then some (pos x) else none

pub try_i64-cases :
    (x : ℕ) → ((x < i64_half) × (try_i64 x ≡ some (pos x))) ⊎ ((i64_half ≤ x) × (try_i64 x ≡ none))
unfolding try_i64
try_i64-cases x = elim (dec_lt x i64_half) [
  | yes h ↦ inl (h, ground arith)
  | no h ↦ inr (omega arith, ground arith)
]

pub try_i64_small : (x : ℕ) → x < i64_half → try_i64 x ≡ some (pos x)
unfolding try_i64
try_i64_small x h = ground arith

pub pred_pos : (k : ℕ) → pos (suc k) -ℤ pos 1 ≡ pos k
unfolding ◌-ℤ◌
pred_pos k = ground arith

pub as_u64-as_i64 : (x : ℕ) → x < u64_mod → as_u64 (as_i64 x) ≡ x
unfolding as_u64 as_i64
as_u64-as_i64 x h = ground arith

pub as_i64_small : (x : ℕ) → x < i64_half → as_i64 x ≡ pos x
unfolding as_i64
as_i64_small x h = ground arith

pub as_u64_small : (n : ℕ) → n < i64_half → as_u64 (pos n) ≡ n
unfolding as_u64
as_u64_small n h = omega arith

-- A value of `i64` comes back from the wrap.
pub wrap_i64_fits : (z : ℤ) → fits_i64 z ≡ true → wrap_i64 z ≡ z
unfolding wrap_i64 as_i64 as_u64
wrap_i64_fits (pos n) h = ground arith
wrap_i64_fits (negsuc n) h = ground arith
