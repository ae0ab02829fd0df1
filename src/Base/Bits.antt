-- ===== src/Base/Bits.antt =====
-- The bits of a number, and masks of one bit.
use Prim.Native.Nat.{ℕ, zero, suc, ◌*◌, ◌/◌, ◌%◌, ◌^◌, ◌≤◌, min, digits, bit_and, bit_and-bitwise}
use mathlib.Core.Path.{◌≡◌, refl}
use mathlib.Core.Logic.{◌↔◌}
use mathlib.Core.Bool.{false}
use native.Mathlib.Omega.{arith}
use fluxora_contracts.Base.Tests.{◌==◌}
use native.Mathlib.Nat.{le_refl, pow-suc, one-le-pow}

-- The bit with the index `k`, from the lowest, which has the index 0.
unfoldable pub bit : ℕ → ℕ → ℕ
bit zero n = n % 2
bit (suc k) n = bit k (n / 2)

bit_of_zero : (k : ℕ) → bit k 0 ≡ 0
unfolding bit
bit_of_zero zero = refl
bit_of_zero (suc k) = bit_of_zero k

pub bit_small : (k n : ℕ) → bit k n ≤ 1
unfolding bit
bit_small zero n = omega arith
bit_small (suc k) n = bit_small k (n / 2)

digits_none : (n a : ℕ) → digits (λ b. 0) min n a 0 ≡ 0
digits_none zero a = refl
digits_none (suc n) zero = refl
digits_none (suc n) (suc a) = let rest = digits_none n (suc a / 2) in omega (arith, rest)

half_power : (k : ℕ) → 2 ^ suc k / 2 ≡ 2 ^ k
half_power k = omega (arith, pow-suc 2 k)

even_power : (k : ℕ) → 2 ^ suc k % 2 ≡ 0
even_power k = omega (arith, pow-suc 2 k)

double : (b k : ℕ) → b * 2 ^ suc k ≡ b * 2 ^ k * 2
double b k = grind (arith, pow-suc 2 k)

digits_power : (n a k : ℕ) → a ≤ n → digits (λ b. 0) min n a (2 ^ k) ≡ bit k a * 2 ^ k
unfolding bit
digits_power zero zero k h = rw (bit_of_zero k) (omega arith)
digits_power zero (suc a) k h = absurd (omega arith)
digits_power (suc n) zero k h = rw (bit_of_zero k) (omega arith)
digits_power (suc n) (suc a) zero h = let none = digits_none n (suc a / 2) in omega (arith, none)
digits_power (suc n) (suc a) (suc k) h =
    let rest = digits_power n (suc a / 2) k (omega arith) in
    rw (half_power k) (rw (even_power k) (rw rest (omega (arith, double (bit k (suc a / 2)) k))))

bit_and_power : (a k : ℕ) → bit_and a (2 ^ k) ≡ bit k a * 2 ^ k
bit_and_power a k = simp bit_and-bitwise (digits_power a a k (le_refl a))

-- A mask of one bit meets a number where the number has that bit.
mask_cases : (b p x : ℕ) → b ≤ 1 → 1 ≤ p → x ≡ b * p → ((x == 0) ≡ false) ↔ (b ≡ 1)
mask_cases zero p x h l e = (λ r. ground (arith, r, e), λ r. ground (arith, r))
mask_cases (suc zero) p x h l e = (λ r. refl, λ r. ground (arith, e, l))
mask_cases (suc (suc b)) p x h l e = absurd (omega (arith, h))

pub bit_and_power_iff : (a k : ℕ) → ((bit_and a (2 ^ k) == 0) ≡ false) ↔ (bit k a ≡ 1)
bit_and_power_iff a k =
    mask_cases (bit k a) (2 ^ k) _ (bit_small k a) (one-le-pow k 2 (omega arith))
      (bit_and_power a k)
