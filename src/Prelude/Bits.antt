-- ===== src/Prelude/Bits.antt =====
-- Exclusive and inclusive or of numbers of a given width, digit by digit.
use Prim.Native.Nat.{ℕ, zero, suc, ◌+◌, ◌*◌, ◌/◌, ◌%◌, ◌^◌, ◌<◌}
use mathlib.Core.Path.{◌≡◌, refl}
use native.Mathlib.Omega.{arith}
use phira_plus_backend.Prelude.Tests.{if◌then◌else◌, nat_beq}

unfoldable pub bit_xor : ℕ → ℕ → ℕ → ℕ
bit_xor zero a b = 0
bit_xor (suc w) a b = (a % 2 + b % 2) % 2 + 2 * bit_xor w (a / 2) (b / 2)

unfoldable pub bit_or : ℕ → ℕ → ℕ → ℕ
bit_or zero a b = 0
bit_or (suc w) a b = (if nat_beq (a % 2 + b % 2) 0 then 0 else 1) + 2 * bit_or w (a / 2) (b / 2)

pub bit_xor_zero : (w a b : ℕ) → a < 2 ^ w → b < 2 ^ w → bit_xor w a b ≡ 0 → a ≡ b
unfolding bit_xor
bit_xor_zero zero a b p q h = omega arith
bit_xor_zero (suc w) a b p q h =
    omega (arith, bit_xor_zero w (a / 2) (b / 2) (omega arith) (omega arith) (omega arith))

pub bit_xor_self : (w a : ℕ) → bit_xor w a a ≡ 0
unfolding bit_xor
bit_xor_self zero a = refl
bit_xor_self (suc w) a = omega (arith, bit_xor_self w (a / 2))

pub bit_xor-lt : (w a b : ℕ) → bit_xor w a b < 2 ^ w
unfolding bit_xor
bit_xor-lt zero a b = omega arith
bit_xor-lt (suc w) a b = omega (arith, bit_xor-lt w (a / 2) (b / 2))

pub bit_or-lt : (w a b : ℕ) → bit_or w a b < 2 ^ w
unfolding bit_or
bit_or-lt zero a b = omega arith
bit_or-lt (suc w) a b = ground (arith, bit_or-lt w (a / 2) (b / 2))

pub bit_or_zero : (w a b : ℕ) → a < 2 ^ w → b < 2 ^ w → bit_or w a b ≡ 0 → (a ≡ 0) × (b ≡ 0)
unfolding bit_or
bit_or_zero zero a b p q h = (omega arith, omega arith)
bit_or_zero (suc w) a b p q h = ground (arith, bit_or_zero w (a / 2) (b / 2))

pub bit_or-zeros : (w : ℕ) → bit_or w 0 0 ≡ 0
unfolding bit_or
bit_or-zeros zero = refl
bit_or-zeros (suc w) = ground (arith, bit_or-zeros w)
