-- ===== src/Prelude/Numbers.antt =====
-- `i64` and `i32` values, as integers over the native numbers.
use Prim.Native.Nat.{ℕ, ◌-◌, ◌%◌, ◌^◌}
use mathlib.Core.Bool.{Bool, false}
use phira_plus_backend.Prelude.Tests.{if◌then◌else◌, ltb, nat_beq}

-- `negsuc n` is -(n + 1).
pub data ℤ : Type 0 where
  pos : ℕ → ℤ
  negsuc : ℕ → ℤ

-- The value that `i64` arithmetic keeps of a product of non-negative numbers: its low 64 bits, read
-- in two's complement.
abbrev pub wrap_i64 : ℕ → ℤ
wrap_i64 n =
    if ltb (n % 2 ^ 64) (2 ^ 63) then pos (n % 2 ^ 64) else negsuc (2 ^ 64 - n % 2 ^ 64 - 1)

-- A 32-bit pattern in two's complement.
abbrev pub of_bits_32 : ℕ → ℤ
of_bits_32 m = if ltb m (2 ^ 31) then pos m else negsuc (2 ^ 32 - m - 1)

-- `as i32`: the low 32 bits.
abbrev pub to_i32 : ℤ → ℤ
to_i32 (pos n) = of_bits_32 (n % 2 ^ 32)
to_i32 (negsuc n) = of_bits_32 (2 ^ 32 - 1 - n % 2 ^ 32)

abbrev pub int_eq : ℤ → ℤ → Bool
int_eq (pos m) (pos n) = nat_beq m n
int_eq (negsuc m) (negsuc n) = nat_beq m n
int_eq _ _ = false
