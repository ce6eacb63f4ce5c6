-- ===== src/Prelude/Words.antt =====
-- Arithmetic of the machine words `u64` and `u32`: the saturating and checked operations of the
-- standard library, over numbers whose range is stated where it matters.
use Prim.Native.Nat.{ℕ, ◌+◌, ◌-◌, ◌*◌, ◌/◌, ◌^◌, min}
use mathlib.Core.Path.{◌≡◌, refl}
use mathlib.Core.Option.{Option, none, some}
use anchor_rs.Prelude.Tests.{leb, if◌then◌else◌}

abbrev pub u32_max : ℕ
u32_max = 4294967295

abbrev pub u64_max : ℕ
u64_max = 18446744073709551615

abbrev pub saturating_add : ℕ → ℕ → ℕ
saturating_add a b = min (a + b) u64_max

-- The arguments are never negative, and `-` stops at 0 as `saturating_sub` does.
abbrev pub saturating_sub : ℕ → ℕ → ℕ
saturating_sub a b = a - b

abbrev pub saturating_mul : ℕ → ℕ → ℕ
saturating_mul a b = min (a * b) u64_max

abbrev pub checked_pow : ℕ → ℕ → Option ℕ
checked_pow a n = if leb (a ^ n) u64_max then some (a ^ n) else none

-- `u64::div_ceil`.
abbrev pub div_ceil : ℕ → ℕ → ℕ
div_ceil a b = (a + b - 1) / b

words : (checked_pow 2 64 ≡ none) × (checked_pow 2 63 ≡ some 9223372036854775808)
words = (refl, refl)
