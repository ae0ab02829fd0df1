-- ===== src/Transition/TopUp/Growth.antt =====
-- The curves before and after a top-up.
use native.Mathlib.Nat.{
  div-mul-le_self, div-le_of_le-mul, le-div_iff_mul-le, le_of_mul-le-mul_left, mul-div_left,
  add-zero,
}
use fluxora_contracts.Base.{ℕ, zero, suc, ◌+◌, ◌*◌, ◌/◌, ◌≤◌, ◌<◌, ◌≡◌, Bool, arith}
use fluxora_contracts.Types.{ReleaseCurve, linear, step, front_loaded}
use fluxora_contracts.Accrual.{tranches}
use fluxora_contracts.Accrual.Curves.{bend, grid, released}
use fluxora_contracts.Accrual.Bounds.{entitled}

pub mul_le : (a b c : ℕ) → b ≤ c → a * b ≤ a * c
mul_le a b c h = grind arith

cancel_le : (d m n : ℕ) → 0 < d → d * m ≤ d * n → m ≤ n
cancel_le d m n p h = le_of_mul-le-mul_left h p

no_quotient : (q t : ℕ) → q * t ≤ 0 → 0 < t → q ≡ 0
no_quotient q t h p = grind arith

pub div_mono : (a b n : ℕ) → a ≤ b → 0 < n → a / n ≤ b / n
div_mono a b n h p = (le-div_iff_mul-le p).1 (omega (arith, div-mul-le_self a n))

-- The seconds that a top-up buys cost at most its amount.
bought_le : (d a t x c q : ℕ) → d * x ≤ a * t → q * t ≤ d * c → 0 < d → q * x ≤ a * c
bought_le d a t x c q h k p =
    cancel_le d (q * x) (a * c) p
      (omega (arith, mul_le q (d * x) (a * t) h, mul_le a (q * t) (d * c) k))

linear_growth_floor :
    (d a t x c q : ℕ) → d * x ≤ a * t → q * t ≤ d * c → 0 < t → q * (t + x) ≤ (d + a) * c
linear_growth_floor zero a t x c q h k p =
    let none_yet : q ≡ 0 = no_quotient q t (omega (arith, k)) p in rw none_yet (omega arith)
linear_growth_floor (suc d) a t x c q h k p =
    omega (arith, bought_le (suc d) a t x c q h k (omega arith))

linear_growth :
    (d a t x c c' : ℕ) → d * x ≤ a * t → c ≤ c' → 0 < t → d * c / t ≤ (d + a) * c' / (t + x)
linear_growth d a t x c c' h l p =
    let floor = linear_growth_floor d a t x c (d * c / t) h (div-mul-le_self (d * c) t) p in
    (le-div_iff_mul-le (omega arith)).1 (omega (arith, floor, mul_le (d + a) c c' l))

released_deposit_mono :
    (k : ReleaseCurve) (d a c t : ℕ) → 0 < t → released k d c t ≤ released k (d + a) c t
unfolding released
released_deposit_mono linear d a c t p = div_mono (d * c) ((d + a) * c) t (omega arith) p
released_deposit_mono step d a c t p =
    div_mono _ _ 4 (omega (arith, mul_le (tranches c t) d (d + a) (omega arith))) (omega arith)
released_deposit_mono front_loaded d a c t p =
    div_mono _ _ 1000 (omega (arith, mul_le (bend (grid c t)) d (d + a) (omega arith)))
      (omega arith)

-- How a top-up by `a` may change the schedule of a curve: a linear one grows by `x` seconds that
-- cost at most `a`, the others keep their end.
abbrev pub Extends : ReleaseCurve → ℕ → ℕ → ℕ → ℕ → Type 0
Extends linear d a t x = d * x ≤ a * t
Extends step d a t x = x ≡ 0
Extends front_loaded d a t x = x ≡ 0

full_share : (d t : ℕ) → 0 < t → d * t / t ≡ d
full_share d t p = mul-div_left d p

released_linear-le : (d c t : ℕ) → c ≤ t → d * c / t ≤ d
released_linear-le d c t h = div-le_of_le-mul t (omega (arith, mul_le d c t h))

entitled_growth_linear :
    (d a t x c c' : ℕ) (gate : Bool)
    → d * x ≤ a * t
    → c ≤ c'
    → c ≤ t
    → 0 < t
    → entitled linear d gate c t ≤ entitled linear (d + a) gate c' (t + x)
unfolding entitled released
entitled_growth_linear d a t x c c' gate h l m p = ground (
  arith,
  linear_growth d a t x c c' h l p,
  full_share d t p,
  linear_growth d a t x t c' h,
  released_linear-le d c t,
)

entitled_growth_fixed :
    (k : ReleaseCurve) (d a t c : ℕ) (gate : Bool)
    → entitled k d gate c t ≤ entitled k (d + a) gate c t
unfolding entitled
entitled_growth_fixed k d a t c gate = ground (arith, released_deposit_mono k d a c t)

-- The amount vested grows with the top-up, for every curve.
pub entitled_growth :
    (k : ReleaseCurve) (d a t x c c' : ℕ) (gate : Bool)
    → Extends k d a t x
    → c ≤ c'
    → c ≤ t
    → (x ≡ 0 → c' ≡ c)
    → 0 < t
    → entitled k d gate c t ≤ entitled k (d + a) gate c' (t + x)
entitled_growth linear d a t x c c' gate h l m same p =
    entitled_growth_linear d a t x c c' gate h l m p
entitled_growth step d a t x c c' gate h l m same p =
    rw (same h, h) (rw add-zero (entitled_growth_fixed step d a t c gate))
entitled_growth front_loaded d a t x c c' gate h l m same p =
    rw (same h, h) (rw add-zero (entitled_growth_fixed front_loaded d a t c gate))
