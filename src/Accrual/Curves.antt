-- ===== src/Accrual/Curves.antt =====
-- The three release curves over ℕ, and the source's formulas for them.
use fluxora_contracts.Base.{
  ℕ, ◌+◌, ◌-◌, ◌*◌, ◌/◌, ◌%◌, ◌≤◌, ◌<◌, ◌≡◌, ap, subst, pos, ◌-ℤ◌, ◌*ℤ◌, ◌/ℤ◌, ◌%ℤ◌, +ℤ_pos, -ℤ_pos,
  *ℤ_pos, /ℤ_pos, i128_limit, arith, checked_mul_pos, checked_div_pos, le→ltb-false,
}
use native.Mathlib.Nat.{
  div-mul-le_self, div-le_of_le-mul, div-add-mod, div-le_self, le-div_iff_mul-le, add-mul-div_left,
}
use fluxora_contracts.Errors.{ok}
use fluxora_contracts.Types.{ReleaseCurve, linear, step, front_loaded}
use fluxora_contracts.Accrual.{vested_linear, vested_step, vested_front_loaded, by_curve, tranches}

-- The grid position of the front-loaded curve.
unfoldable pub grid : ℕ → ℕ → ℕ
grid c total = c * 1000 / total

unfoldable pub bend : ℕ → ℕ
bend u = 2 * u - u * u / 1000

-- What a deposit `d` has released after `c` of `total` seconds, rounded down once.
unfoldable pub released : ReleaseCurve → ℕ → ℕ → ℕ → ℕ
released linear d c total = d * c / total
released step d c total = d * tranches c total / 4
released front_loaded d c total = d * bend (grid c total) / 1000

pub mul_le : (a b c : ℕ) → b ≤ c → a * b ≤ a * c
mul_le a b c h = grind arith

%ℤ_pos : (a b : ℕ) → pos a %ℤ pos b ≡ pos (a - a / b * b)
unfolding ◌%ℤ◌
%ℤ_pos a b = rw (/ℤ_pos, *ℤ_pos, -ℤ_pos a (a / b * b) (div-mul-le_self a b))

rem_eq : (a b : ℕ) → a - a / b * b ≡ a % b
rem_eq a b = omega (arith, div-add-mod a b)

rem_pos : (a b : ℕ) → pos a %ℤ pos b ≡ pos (a % b)
rem_pos a b = rw (%ℤ_pos, rem_eq)

div_le_of_lt : (d c t : ℕ) → c < t → d * c / t ≤ d
div_le_of_lt d c t h = div-le_of_le-mul t (omega (arith, mul_le d c t (omega arith)))

pub grid-le : (c t : ℕ) → c < t → grid c t ≤ 1000
unfolding grid
grid-le c t h = div-le_of_le-mul t (omega arith)

square_add : (u e : ℕ) → u + e ≤ 1000 → (u + e) * (u + e) ≤ u * u + 2000 * e
square_add u e h = omega (arith, mul_le e (2 * u + e) 2000 (omega arith))

square_le : (u v : ℕ) → u ≤ v → v ≤ 1000 → v * v ≤ u * u + 2000 * (v - u)
square_le u v h k =
    let e : u + (v - u) ≡ v = omega arith in
    subst (λ w. w * w ≤ u * u + 2000 * (v - u)) e (square_add u (v - u) (omega arith))

bend_mono : (u v : ℕ) → u ≤ v → v ≤ 1000 → bend u ≤ bend v
unfolding bend
bend_mono u v h k = omega (arith, square_le u v h k)

bend-le : (u : ℕ) → u ≤ 1000 → bend u ≤ 1000
unfolding bend
bend-le u h = omega (arith, square_le u 1000 h (omega arith))

square_small : (u : ℕ) → u ≤ 1000 → u * u ≤ 1000 * u
square_small u h = omega (arith, mul_le u u 1000 h)

-- Splitting the product keeps its floor.
split_floor : (d k n : ℕ) → 0 < n → d / n * k + d % n * k / n ≡ d * k / n
split_floor d k n p =
    let e : d % n * k + n * (d / n * k) ≡ d * k =
      omega (arith, ap (λ (t : ℕ). t * k) (div-add-mod d n)) in
    let f : (d % n * k + n * (d / n * k)) / n ≡ d % n * k / n + d / n * k =
      add-mul-div_left (d % n * k) (d / n * k) p in
    subst (λ (t : ℕ). d / n * k + d % n * k / n ≡ t / n) e (omega (arith, f))

div_mono : (a b n : ℕ) → a ≤ b → 0 < n → a / n ≤ b / n
div_mono a b n h p = (le-div_iff_mul-le p).1 (omega (arith, div-mul-le_self a n))

floor_mono : (d j k n : ℕ) → j ≤ k → 0 < n → d * j / n ≤ d * k / n
floor_mono d j k n h p = div_mono (d * j) (d * k) n (mul_le d j k h) p

floor-le : (d k n : ℕ) → k ≤ n → d * k / n ≤ d
floor-le d k n h = div-le_of_le-mul n (omega (arith, mul_le d k n h))

pub tranches-le : (c t : ℕ) → tranches c t ≤ 3
tranches-le c t = ground arith

-- More seconds open at least as many tranches.
tranches_mono : (c c' t : ℕ) → c ≤ c' → tranches c t ≤ tranches c' t
tranches_mono c c' t h = ground arith

grid_mono : (c c' t : ℕ) → c ≤ c' → 0 < t → grid c t ≤ grid c' t
unfolding grid
grid_mono c c' t h p = div_mono (c * 1000) (c' * 1000) t (omega arith) p

pub released_mono :
    (k : ReleaseCurve) (d c c' t : ℕ) → c ≤ c' → c' < t → released k d c t ≤ released k d c' t
unfolding released
released_mono linear d c c' t h l = floor_mono d c c' t h (omega arith)
released_mono step d c c' t h l = floor_mono d _ _ 4 (tranches_mono c c' t h) (omega arith)
released_mono front_loaded d c c' t h l =
    floor_mono d _ _ 1000
      (bend_mono (grid c t) (grid c' t) (grid_mono c c' t h (omega arith)) (grid-le c' t l))
      (omega arith)

pub released-le : (k : ReleaseCurve) (d c t : ℕ) → c < t → released k d c t ≤ d
unfolding released
released-le linear d c t l = floor-le d c t (omega arith)
released-le step d c t l = floor-le d _ 4 (omega (arith, tranches-le c t))
released-le front_loaded d c t l = floor-le d _ 1000 (bend-le (grid c t) (grid-le c t l))

-- The source's formulas compute `released`.
linear_formula :
    (d c t : ℕ) → c < t → d * t < i128_limit → vested_linear (pos d) c t ≡ ok (pos (d * c / t))
unfolding vested_linear
linear_formula d c t l f = rw (checked_mul_pos d c (omega (arith, mul_le d c t (omega arith)))) (
    rw
      (checked_div_pos (d * c) t (omega arith)
        (omega (arith, div-le_self (d * c) t, mul_le d c t (omega arith))))
      (rw (le→ltb-false (d + 0) (d * c / t + 0) (omega (arith, floor-le d c t (omega arith))))))

step_formula : (d c t : ℕ) → vested_step (pos d) c t ≡ pos (d * tranches c t / 4)
unfolding vested_step
step_formula d c t =
    simp (/ℤ_pos, rem_pos, *ℤ_pos, +ℤ_pos) (ap pos (split_floor d _ 4 (omega arith)))

bend_formula : (u : ℕ) → u ≤ 1000 → pos 2 *ℤ pos u -ℤ pos u *ℤ pos u /ℤ pos 1000 ≡ pos (bend u)
unfolding bend
bend_formula u h =
    let small : u * u / 1000 ≤ 2 * u = omega (arith, square_small u h) in
    simp (*ℤ_pos, /ℤ_pos) (-ℤ_pos (2 * u) (u * u / 1000) small)

front_loaded_formula :
    (d c t : ℕ) → c < t → vested_front_loaded (pos d) c t ≡ pos (d * bend (grid c t) / 1000)
unfolding vested_front_loaded grid
front_loaded_formula d c t l =
    rw (bend_formula (grid c t) (grid-le c t l))
      (simp (/ℤ_pos, rem_pos, *ℤ_pos, +ℤ_pos) (ap pos (split_floor d _ 1000 (omega arith))))

-- On an open schedule the source's arithmetic succeeds and computes `released`.
pub by_curve_formula :
    (k : ReleaseCurve) (d c t : ℕ)
    → c < t
    → d * t < i128_limit
    → by_curve k (pos d) c t ≡ ok (pos (released k d c t))
unfolding by_curve released
by_curve_formula linear d c t l f = linear_formula d c t l f
by_curve_formula step d c t l f = ap ok (step_formula d c t)
by_curve_formula front_loaded d c t l f = ap ok (front_loaded_formula d c t l)
