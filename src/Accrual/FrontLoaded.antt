-- ===== src/Accrual/FrontLoaded.antt =====
-- The front-loaded curve beside the linear one, as `vested` pays them.
use native.Mathlib.Nat.{
  div-mul-le_self, div-add-mod, le-div_iff_mul-le, mod-lt, le_of_mul-le-mul_left,
}
use fluxora_contracts.Base.{
  ℕ, ◌+◌, ◌-◌, ◌*◌, ◌/◌, ◌≤◌, ◌<◌, ◌≡◌, ap, subst, ◌∙◌, Bool, pos, pos_part, arith,
}
use fluxora_contracts.Errors.{ok}
use fluxora_contracts.Types.{Stream, ReleaseCurve, linear, front_loaded}
use fluxora_contracts.Accrual.{duration, elapsed, cliff_reached, stream_time, vested}
use fluxora_contracts.Accrual.Curves.{grid, bend, released, mul_le}
use fluxora_contracts.Accrual.Bounds.{IsFunded, entitled, vested_formula}

bend_ahead : (u : ℕ) → 1 ≤ u → u < 1000 → u + 1 ≤ bend u
unfolding bend
bend_ahead u h k = omega (arith, mul_le u u 999 (omega arith))

-- `c * 1000` stays below the next point of the grid.
grid_next : (c t : ℕ) → 0 < t → c * 1000 ≤ (grid c t + 1) * t
unfolding grid
grid_next c t p = omega (arith, div-add-mod (c * 1000) t, mod-lt (c * 1000) p)

ahead : (d c t u b : ℕ) → 0 < t → c * 1000 ≤ (u + 1) * t → u + 1 ≤ b → d * c / t ≤ d * b / 1000
ahead d c t u b p h k =
    let q = d * c / t in
    let floor : q * t ≤ d * c = div-mul-le_self (d * c) t in
    let crossed : t * (q * 1000) ≤ t * (d * (u + 1)) =
      omega (arith, floor, mul_le d (c * 1000) ((u + 1) * t) h) in
    let share : q * 1000 ≤ d * (u + 1) = le_of_mul-le-mul_left crossed p in
    (le-div_iff_mul-le (omega arith)).1 (omega (arith, share, mul_le d (u + 1) b k))

div-lt_of_lt-mul : (a b t : ℕ) → a < b * t → a / t < b
div-lt_of_lt-mul a b t h = grind arith

zero_of_lt : (a t : ℕ) → a < t → a / t ≡ 0
zero_of_lt a t h = grind arith

no_bend : (d u : ℕ) → u ≡ 0 → d * (2 * u - u * u / 1000) / 1000 ≡ 0
no_bend d u e = rw e (omega arith)

with_curve :
    (s : Stream) (now : ℕ) (k : ReleaseCurve)
    → IsFunded now s
    → IsFunded now (record s { curve = k })
unfolding duration elapsed stream_time
with_curve s now k f = record {
  nonneg = f.nonneg;
  in_range = f.in_range;
  product_fits = f.product_fits;
}

cliff_reached-curve :
    (s : Stream) (k : ReleaseCurve) (now : ℕ)
    → cliff_reached (record s { curve = k }) now ≡ cliff_reached s now
unfolding cliff_reached stream_time
cliff_reached-curve s k now = ground arith

vested_with_curve :
    (s : Stream) (now : ℕ) (k : ReleaseCurve)
    → IsFunded now s
    → vested (record s { curve = k }) now
      ≡ ok (
          pos
            (entitled k (pos_part s.deposited) (cliff_reached s now) (elapsed s now) (duration s)))
unfolding duration elapsed stream_time
vested_with_curve s now k f =
    subst
      (λ (gate : Bool).
        vested (record s { curve = k }) now
        ≡ ok (pos (entitled k (pos_part s.deposited) gate (elapsed s now) (duration s))))
      (cliff_reached-curve s k now)
      (vested_formula (record s { curve = k }) now (with_curve s now k f))

grid_positive : (c t : ℕ) → 0 < t → t ≤ 1000 * c → 1 ≤ grid c t
unfolding grid
grid_positive c t p h = (le-div_iff_mul-le p).1 (omega arith)

grid-lt : (c t : ℕ) → c < t → grid c t < 1000
unfolding grid
grid-lt c t h = div-lt_of_lt-mul (c * 1000) 1000 t (omega arith)

released_ahead :
    (d c t : ℕ) → c < t → t ≤ 1000 * c → released linear d c t ≤ released front_loaded d c t
unfolding released
released_ahead d c t l h =
    ahead d c t (grid c t) (bend (grid c t)) (omega arith) (grid_next c t (omega arith))
      (bend_ahead (grid c t) (grid_positive c t (omega arith) h) (grid-lt c t l))

entitled_ahead :
    (d c t : ℕ) (gate : Bool)
    → t ≤ 1000 * c
    → entitled linear d gate c t ≤ entitled front_loaded d gate c t
unfolding entitled
entitled_ahead d c t gate h = ground (arith, released_ahead d c t)

-- When at least a thousandth of the schedule is consumed, a funded stream has vested at least as
-- much with the front-loaded curve as with the linear one, and both are computed without an error.
pub front_loaded-ge-linear :
    (s : Stream) (now : ℕ)
    → IsFunded now s
    → duration s ≤ 1000 * elapsed s now
    → (v w : ℕ) × (vested (record s { curve = linear }) now ≡ ok (pos v))
      × (vested (record s { curve = front_loaded }) now ≡ ok (pos w))
      × (v ≤ w)
front_loaded-ge-linear s now f h = (
  entitled linear (pos_part s.deposited) (cliff_reached s now) (elapsed s now) (duration s),
  entitled front_loaded (pos_part s.deposited) (cliff_reached s now) (elapsed s now) (duration s),
  vested_with_curve s now linear f,
  vested_with_curve s now front_loaded f,
  entitled_ahead (pos_part s.deposited) (elapsed s now) (duration s) (cliff_reached s now) h,
)

grid_zero : (c t : ℕ) → 1000 * c < t → grid c t ≡ 0
unfolding grid
grid_zero c t h = zero_of_lt (c * 1000) t (omega arith)

entitled_flat : (d c t : ℕ) (gate : Bool) → 1000 * c < t → entitled front_loaded d gate c t ≡ 0
unfolding entitled released bend
entitled_flat d c t gate h = ground (arith, grid_zero c t h, no_bend d (grid c t) (grid_zero c t h))

-- A funded front-loaded stream of which less than a thousandth of the schedule is consumed has
-- vested nothing.
pub front_loaded_lags :
    (s : Stream) (now : ℕ)
    → IsFunded now s
    → s.curve ≡ front_loaded
    → 1000 * elapsed s now < duration s
    → vested s now ≡ ok (pos 0)
front_loaded_lags s now f c h =
    vested_formula s now f
    ∙ ap ok (
        ap pos (
          simp c (
            entitled_flat (pos_part s.deposited) (elapsed s now) (duration s) (cliff_reached s now)
              h)))
