-- ===== src/Base/Int.antt =====
-- Signed integers over the native numbers, and the C types `int` and `long`.
use Prim.Native.Nat.{ℕ, suc, ◌+◌, ◌-◌, ◌/◌, ◌%◌, ◌^◌, ◌<◌}
use mathlib.Core.Path.{◌≡◌}
use mathlib.Core.Logic.{◌↔◌}
use mathlib.Core.Bool.{Bool, true, ◌&&◌}
use native.Mathlib.Omega.{arith}
use disastr_os_message_queue.Base.Tests.{ltb, leb, ◌==◌, if◌then◌else◌}

-- `negsuc n` is -(n + 1).
pub data ℤ : Type 0 where
  pos : ℕ → ℤ
  negsuc : ℕ → ℤ

abbrev pub pos_part : ℤ → ℕ
pos_part (pos n) = n
pos_part (negsuc n) = 0

abbrev pub neg_part : ℤ → ℕ
neg_part (pos n) = 0
neg_part (negsuc n) = suc n

-- a - b, as an integer.
abbrev pub sub_ℕ : ℕ → ℕ → ℤ
sub_ℕ a b = if leb b a then pos (a - b) else negsuc (b - a - 1)

infixl 65 ◌+ℤ◌ ◌-ℤ◌
abbrev pub ◌+ℤ◌ : ℤ → ℤ → ℤ
a +ℤ b = sub_ℕ (pos_part a + pos_part b) (neg_part a + neg_part b)

abbrev pub ◌-ℤ◌ : ℤ → ℤ → ℤ
a -ℤ b = sub_ℕ (pos_part a + neg_part b) (neg_part a + pos_part b)

-- The tests `a < b` and `a == b` of the source.
abbrev pub ltb_ℤ : ℤ → ℤ → Bool
ltb_ℤ a b = ltb (pos_part a + neg_part b) (pos_part b + neg_part a)

abbrev pub eqb_ℤ : ℤ → ℤ → Bool
eqb_ℤ a b = (pos_part a == pos_part b) && (neg_part a == neg_part b)

pub eqb_ℤ_iff : (a b : ℤ) → (eqb_ℤ a b ≡ true) ↔ (a ≡ b)
eqb_ℤ_iff a b = ground arith

-- The residue of an integer modulo 2^32.
abbrev pub low_word : ℤ → ℕ
low_word (pos n) = n % 2 ^ 32
low_word (negsuc n) = 2 ^ 32 - 1 - n % 2 ^ 32

-- The conversion from `long` to `int`: the low 32 bits, read as a signed number.
unfoldable pub to_int : ℤ → ℤ
to_int z = if ltb (low_word z) (2 ^ 31) then pos (low_word z) else negsuc (2 ^ 32 - 1 - low_word z)

-- A value in the range of `int`. A sum of two `int`s outside it is undefined in C.
unfoldable pub is_int : ℤ → Bool
unfolding to_int
is_int z = eqb_ℤ (to_int z) z

-- The bit `2 ^ k` of an `int`.
unfoldable pub has_bit : ℕ → ℤ → Bool
has_bit k z = low_word z / 2 ^ k % 2 == 1

-- A value in the range of `int` is kept.
pub to_int-pos : (n : ℕ) → n < 2 ^ 31 → to_int (pos n) ≡ pos n
unfolding to_int
to_int-pos n h = ground arith

pub to_int-negsuc : (n : ℕ) → n < 2 ^ 31 → to_int (negsuc n) ≡ negsuc n
unfolding to_int
to_int-negsuc n h = ground arith
