-- ===== src/Prelude/Word.antt =====
-- Arithmetic of `uint32_t`, `uint16_t` and `size_t` on native numbers: every result is reduced
-- modulo 2 ^ 32, 2 ^ 16 or 2 ^ 64.
use Prim.Native.Nat.{ℕ, ◌+◌, ◌-◌, ◌*◌, ◌%◌, ◌^◌, ◌≤◌, ◌<◌}
use mathlib.Core.Path.{◌≡◌}
use mathlib.Core.Option.{Option, none, some}
use eos_tools.Prelude.Tests.{ltb, if◌then◌else◌, lt→ltb, ltb_no}
use native.Mathlib.Omega.{arith}

-- A result of `int` that is not negative: an overflow is undefined.
abbrev pub int_mod : ℕ
int_mod = 2 ^ 31

unfoldable pub as_int : ℕ → Option ℕ
as_int n = if ltb n int_mod then some n else none

pub as_int_lem : (n : ℕ) → n < int_mod → as_int n ≡ some n
unfolding as_int
as_int_lem n h = rw (lt→ltb n int_mod h)

pub as_int_overflow : (n : ℕ) → int_mod ≤ n → as_int n ≡ none
unfolding as_int
as_int_overflow n h = rw (ltb_no n int_mod h)

abbrev pub u32_mod : ℕ
u32_mod = 2 ^ 32

unfoldable pub add32 : ℕ → ℕ → ℕ
add32 a b = (a + b) % u32_mod

unfoldable pub sub32 : ℕ → ℕ → ℕ
sub32 a b = (a + u32_mod - b % u32_mod) % u32_mod

unfoldable pub shl32 : ℕ → ℕ → ℕ
shl32 a k = (a * 2 ^ k) % u32_mod

pub add32_lem : (a b : ℕ) → a + b < u32_mod → add32 a b ≡ a + b
unfolding add32
add32_lem a b h = omega arith

pub sub32_lem : (a b : ℕ) → b ≤ a → a < u32_mod → sub32 a b ≡ a - b
unfolding sub32
sub32_lem a b h k = omega arith

pub shl32_lem : (a k : ℕ) → a * 2 ^ k < u32_mod → shl32 a k ≡ a * 2 ^ k
unfolding shl32
shl32_lem a k h = omega arith

abbrev pub u64_mod : ℕ
u64_mod = 2 ^ 64

unfoldable pub add64 : ℕ → ℕ → ℕ
add64 a b = (a + b) % u64_mod

unfoldable pub sub64 : ℕ → ℕ → ℕ
sub64 a b = (a + u64_mod - b % u64_mod) % u64_mod

pub add64_lem : (a b : ℕ) → a + b < u64_mod → add64 a b ≡ a + b
unfolding add64
add64_lem a b h = omega arith

pub sub64_lem : (a b : ℕ) → b ≤ a → a < u64_mod → sub64 a b ≡ a - b
unfolding sub64
sub64_lem a b h k = omega arith

abbrev pub u16_mod : ℕ
u16_mod = 2 ^ 16

unfoldable pub add16 : ℕ → ℕ → ℕ
add16 a b = (a + b) % u16_mod

unfoldable pub sub16 : ℕ → ℕ → ℕ
sub16 a b = (a + u16_mod - b % u16_mod) % u16_mod

pub add16_lem : (a b : ℕ) → a + b < u16_mod → add16 a b ≡ a + b
unfolding add16
add16_lem a b h = omega arith

pub sub16_lem : (a b : ℕ) → b ≤ a → a < u16_mod → sub16 a b ≡ a - b
unfolding sub16
sub16_lem a b h k = omega arith
