-- ===== src/Base/Words.antt =====
-- Rust's machine integers: `u64` and `u32` as natural numbers, `i128` as integers, with the checked
-- and saturating operations that the contracts call. On ℕ, `-` is `saturating_sub`.
use Prim.Native.Nat.{◌≤◌, ℕ, ◌+◌, ◌-◌, ◌*◌, ◌/◌, ◌%◌, ◌^◌, ◌<◌}
use mathlib.Core.Path.{◌≡◌}
use mathlib.Core.Logic.{◌⊎◌}
use mathlib.Core.Bool.{Bool}
use mathlib.Core.Option.{Option, none, some}
use native.Mathlib.Omega.{arith}
use fluxora_contracts.Base.Tests.{ltb, leb, ==_ne, if◌then◌else◌}
use fluxora_contracts.Base.Int.{
  ℤ, pos, negsuc, ◌+ℤ◌, ◌-ℤ◌, ◌*ℤ◌, ◌/ℤ◌, eqb_ℤ, ltb_ℤ, +ℤ_pos, -ℤ_pos, *ℤ_pos, /ℤ_pos,
}

abbrev pub u32_max : ℕ
u32_max = 2 ^ 32 - 1

abbrev pub u64_max : ℕ
u64_max = 2 ^ 64 - 1

abbrev pub i128_limit : ℕ
i128_limit = 2 ^ 127

-- `u64::checked_add` and `u64::checked_sub`
unfoldable pub checked_add_u64 : ℕ → ℕ → Option ℕ
checked_add_u64 a b = if leb (a + b) u64_max then some (a + b) else none

unfoldable pub checked_sub_u64 : ℕ → ℕ → Option ℕ
checked_sub_u64 a b = if leb b a then some (a - b) else none

-- `saturating_add` and `saturating_mul`
unfoldable pub saturating_add_u64 : ℕ → ℕ → ℕ
saturating_add_u64 a b = if leb (a + b) u64_max then a + b else u64_max

unfoldable pub saturating_mul_u64 : ℕ → ℕ → ℕ
saturating_mul_u64 a b = if leb (a * b) u64_max then a * b else u64_max

-- The range of `i128`: -2^127 to 2^127 - 1.
unfoldable pub in_i128 : ℤ → Bool
in_i128 (pos n) = ltb n i128_limit
in_i128 (negsuc n) = ltb n i128_limit

unfoldable pub checked : ℤ → Option ℤ
checked z = if in_i128 z then some z else none

unfoldable pub checked_add : ℤ → ℤ → Option ℤ
checked_add a b = checked (a +ℤ b)

unfoldable pub checked_sub : ℤ → ℤ → Option ℤ
checked_sub a b = checked (a -ℤ b)

unfoldable pub checked_mul : ℤ → ℤ → Option ℤ
checked_mul a b = checked (a *ℤ b)

-- `none` for a divisor 0 and for `i128::MIN / -1`, which is out of range.
unfoldable pub checked_div : ℤ → ℤ → Option ℤ
checked_div a b = if eqb_ℤ b (pos 0) then none else checked (a /ℤ b)

-- `x as u64` of an `i128` keeps the low 64 bits.
unfoldable pub as_u64 : ℤ → ℕ
as_u64 (pos n) = n % 2 ^ 64
as_u64 (negsuc n) = u64_max - n % 2 ^ 64

-- `div_ceil` of an unsigned number by a positive one.
unfoldable pub div_ceil : ℕ → ℕ → ℕ
div_ceil a b = (a + b - 1) / b

-- What the checked operations give on numbers that are not negative.
pub checked_pos : (n : ℕ) → n < i128_limit → checked (pos n) ≡ some (pos n)
unfolding checked in_i128
checked_pos n h = ground arith

pub checked_add_pos :
    (a b : ℕ) → a + b < i128_limit → checked_add (pos a) (pos b) ≡ some (pos (a + b))
unfolding checked_add
checked_add_pos a b h = rw +ℤ_pos (checked_pos (a + b) h)

pub checked_sub_pos :
    (a b : ℕ) → b ≤ a → a < i128_limit → checked_sub (pos a) (pos b) ≡ some (pos (a - b))
unfolding checked_sub
checked_sub_pos a b h l = rw (-ℤ_pos a b h) (checked_pos (a - b) (omega arith))

pub checked_mul_pos :
    (a b : ℕ) → a * b < i128_limit → checked_mul (pos a) (pos b) ≡ some (pos (a * b))
unfolding checked_mul
checked_mul_pos a b h = rw *ℤ_pos (checked_pos (a * b) h)

pub checked_div_pos :
    (a b : ℕ) → 0 < b → a / b < i128_limit → checked_div (pos a) (pos b) ≡ some (pos (a / b))
unfolding checked_div
checked_div_pos a b h l = rw (/ℤ_pos, ==_ne (b + 0) 0 (omega arith)) (checked_pos (a / b) l)

pub checked_sub_nonneg :
    (a b : ℕ)
    → a < i128_limit
    → b < i128_limit
    → checked_sub (pos a) (pos b) ≡ some (pos a -ℤ pos b)
unfolding checked_sub checked in_i128 ◌-ℤ◌
checked_sub_nonneg a b h k = ground arith

-- A difference that saturates at zero is the truncated difference of ℕ.
pub saturate_sub :
    (a b : ℕ) → (if ltb_ℤ (pos a -ℤ pos b) (pos 0) then pos 0 else pos a -ℤ pos b) ≡ pos (a - b)
unfolding ◌-ℤ◌
saturate_sub a b = ground arith

-- The two outcomes of each operation on numbers that are not negative.
pub checked-cases :
    (n : ℕ) → ((checked (pos n) ≡ some (pos n)) × (n < i128_limit)) ⊎ (checked (pos n) ≡ none)
unfolding checked in_i128
checked-cases n = ground arith

pub checked_add-cases :
    (a b : ℕ)
    → ((checked_add (pos a) (pos b) ≡ some (pos (a + b))) × (a + b < i128_limit))
      ⊎ (checked_add (pos a) (pos b) ≡ none)
unfolding checked_add
checked_add-cases a b = rw +ℤ_pos (checked-cases (a + b))

pub checked_mul-cases :
    (a b : ℕ)
    → ((checked_mul (pos a) (pos b) ≡ some (pos (a * b))) × (a * b < i128_limit))
      ⊎ (checked_mul (pos a) (pos b) ≡ none)
unfolding checked_mul
checked_mul-cases a b = rw *ℤ_pos (checked-cases (a * b))

pub checked_div-cases :
    (a b : ℕ)
    → ((checked_div (pos a) (pos b) ≡ some (pos (a / b))) × (0 < b))
      ⊎ (checked_div (pos a) (pos b) ≡ none)
unfolding checked_div
checked_div-cases a b = rw /ℤ_pos (ground (arith, checked-cases (a / b)))

-- What a checked operation gave, where it gave something.
pub checked_add-some : (a b : ℕ) {k : ℤ} → checked_add (pos a) (pos b) ≡ some k → k ≡ pos (a + b)
checked_add-some a b e = let cases = checked_add-cases a b in ground (arith, cases)

pub checked_sub-some :
    (a b : ℕ) {k : ℤ} → b ≤ a → checked_sub (pos a) (pos b) ≡ some k → k ≡ pos (a - b)
unfolding checked_sub
checked_sub-some a b h e =
    let cases = checked-cases (a - b) in let exact = -ℤ_pos a b h in ground (arith, cases, exact)
