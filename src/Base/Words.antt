-- ===== src/Base/Words.antt =====
-- Machine words: `size_t` is 64 bits wide, and an `int` is an integer read off 32 bits.
use mathlib.Core.Bool.{Bool, true, false}
use Prim.Native.Nat.{ℕ, zero, ◌+◌, ◌-◌, ◌%◌, ◌^◌}
use gen_utp.Base.Tests.{ltb, if◌then◌else◌}

abbrev pub size_mod : ℕ
size_mod = 2 ^ 64

abbrev pub add_size : ℕ → ℕ → ℕ
add_size a b = (a + b) % size_mod

-- `-` on ℕ stops at 0: a `size_t` wraps.
abbrev pub sub_size : ℕ → ℕ → ℕ
sub_size a b = (a + size_mod - b) % size_mod

-- `negsuc n` is -(n + 1).
pub data ℤ : Type 0 where
  pos : ℕ → ℤ
  negsuc : ℕ → ℤ

abbrev pub minus_one : ℤ
minus_one = ℤ.negsuc 0

-- The value of an `int` that is given a 32-bit pattern.
unfoldable pub to_int32 : ℕ → ℤ
to_int32 n = if ltb n (2 ^ 31) then ℤ.pos n else ℤ.negsuc (2 ^ 32 - n - 1)

-- The `unsigned long` that an integer of C converts to.
unfoldable pub to_ulong : ℤ → ℕ
to_ulong (ℤ.pos n) = n
to_ulong (ℤ.negsuc n) = 2 ^ 64 - n - 1

unfoldable pub is_minus_one : ℤ → Bool
is_minus_one (ℤ.negsuc zero) = true
is_minus_one _ = false
