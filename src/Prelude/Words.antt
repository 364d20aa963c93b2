-- ===== src/Prelude/Words.antt =====
-- The machine integers of the contracts: i128 as integers in range, u32 and u64 as natural numbers.
use Prim.Native.Nat.{ℕ, ◌+◌, ◌-◌, ◌*◌, ◌≤◌, min}
use mathlib.Core.Path.{◌≡◌}
use mathlib.Core.Bool.{Bool, ◌&&◌}
use mathlib.Core.Option.{Option, none, some}
use native.Mathlib.Omega.{arith}
use stellar_dex_agg.Prelude.Tests.{leb, if◌then◌else◌}
use stellar_dex_agg.Prelude.Int.{ℤ, pos, negsuc, pos_part, neg_part, ◌≤ℤ◌, ◌+ℤ◌, ◌-ℤ◌, ◌*ℤ◌}

abbrev pub u32_max : ℕ
u32_max = 0xffff_ffff

abbrev pub u64_max : ℕ
u64_max = 0xffff_ffff_ffff_ffff

abbrev pub i128_top : ℕ
i128_top = 0x7fff_ffff_ffff_ffff_ffff_ffff_ffff_ffff

-- `i128::MAX`
abbrev pub i128_max : ℤ
i128_max = pos i128_top

-- The value is one of the type i128.
abbrev pub in_i128 : ℤ → Bool
in_i128 x = leb (pos_part x) i128_top && leb (neg_part x) (i128_top + 1)

unfoldable pub checked : ℤ → Option ℤ
checked x = if in_i128 x then some x else none

pub checked-eq_some : (x y : ℤ) → checked x ≡ some y → y ≡ x
unfolding checked
checked-eq_some x y e = ground arith

pub checked_nonneg : (x : ℤ) → pos 0 ≤ℤ x → x ≤ℤ i128_max → checked x ≡ some x
unfolding checked
checked_nonneg x l h = ground arith

pub checked-pos : (n : ℕ) → n ≤ i128_top → checked (pos n) ≡ some (pos n)
unfolding checked
checked-pos n h = ground arith

-- `checked_add`, `checked_sub` and `checked_mul` of i128.
abbrev pub checked_add : ℤ → ℤ → Option ℤ
checked_add a b = checked (a +ℤ b)

abbrev pub checked_sub : ℤ → ℤ → Option ℤ
checked_sub a b = checked (a -ℤ b)

abbrev pub checked_mul : ℤ → ℤ → Option ℤ
checked_mul a b = checked (a *ℤ b)

-- `u32::saturating_add` and `u32::saturating_mul`.
abbrev pub saturating_add_u32 : ℕ → ℕ → ℕ
saturating_add_u32 a b = min (a + b) u32_max

abbrev pub saturating_mul_u32 : ℕ → ℕ → ℕ
saturating_mul_u32 a b = min (a * b) u32_max

abbrev pub u128_max : ℕ
u128_max = 0xffff_ffff_ffff_ffff_ffff_ffff_ffff_ffff

-- The casts `as u128` and `as i128`, which keep the bits.
abbrev pub as_u128 : ℤ → ℕ
as_u128 (pos n) = n
as_u128 (negsuc n) = u128_max - n

abbrev pub as_i128 : ℕ → ℤ
as_i128 n = if leb n i128_top then pos n else negsuc (u128_max - n)
