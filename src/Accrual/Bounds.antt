-- ===== src/Accrual/Bounds.antt =====
-- Bounds and growth of `vested`, `withdrawable` and `refundable`, by the closed form of `vested`.
use fluxora_contracts.Base.{
  ℕ, ◌+◌, ◌-◌, ◌*◌, ◌≤◌, ◌<◌, ◌≡◌, refl, sym, ap, ℤ, pos, negsuc, pos_part, neg_part, ◌≤ℤ◌, ◌+ℤ◌,
  int_laws, i128_limit, leb, if◌then◌else◌, arith, Bool-cases, Bool, true, inl, inr,
  checked_sub_pos, checked_sub_nonneg, saturate_sub, ◌∙◌, Option, some, none,
}
use fluxora_contracts.Errors.{ok}
use fluxora_contracts.Types.{Stream, ReleaseCurve}
use fluxora_contracts.Accrual.{
  stream_time, duration, elapsed, cliff_reached, vested, withdrawable, refundable,
}
use fluxora_contracts.Accrual.Curves.{released, released_mono, released-le, by_curve_formula}

-- What the arithmetic of a stream needs at an instant: an amount in range, and a product that fits as
-- long as the schedule is not consumed.
pub record IsFunded (now : ℕ) (s : Stream) : Type 0 where
  pub nonneg : pos 0 ≤ℤ s.deposited
  pub in_range : pos_part s.deposited < i128_limit
  pub product_fits : elapsed s now < duration s → pos_part s.deposited * duration s < i128_limit

pub pos_of_nonneg : (z : ℤ) → pos 0 ≤ℤ z → z ≡ pos (pos_part z)
pos_of_nonneg (pos n) h = refl
pos_of_nonneg (negsuc n) h = absurd (omega arith)

pub neg_part_zero : (z : ℤ) → pos 0 ≤ℤ z → neg_part z ≡ 0
neg_part_zero z h = ground arith

-- The amount vested, as a function of the gate and of the seconds consumed.
unfoldable pub entitled : ReleaseCurve → ℕ → Bool → ℕ → ℕ → ℕ
entitled k d gate c t = if gate then if leb t c then d else released k d c t else 0

pub entitled-le : (k : ReleaseCurve) (d : ℕ) (gate : Bool) (c t : ℕ) → entitled k d gate c t ≤ d
unfolding entitled
entitled-le k d gate c t = elim (Bool-cases (leb t c)) [
  | inl e ↦ ground arith
  | inr e ↦ ground (arith, released-le k d c t)
]

pub entitled_mono :
    (k : ReleaseCurve) (d : ℕ) (gate gate' : Bool) (c c' t : ℕ)
    → (gate ≡ true → gate' ≡ true)
    → c ≤ c'
    → entitled k d gate c t ≤ entitled k d gate' c' t
unfolding entitled
entitled_mono k d gate gate' c c' t g h =
    ground (arith, released-le k d c t, released-le k d c' t, released_mono k d c c' t)

-- The closed form of `vested`.
pub vested_formula :
    (s : Stream) (now : ℕ)
    → IsFunded now s
    → vested s now
      ≡ ok (
          pos (
            entitled s.curve
              (pos_part s.deposited)
              (cliff_reached s now)
              (elapsed s now)
              (duration s)))
unfolding vested entitled
vested_formula s now f =
    let e = pos_of_nonneg s.deposited f.nonneg in
    let formula = by_curve_formula s.curve (pos_part s.deposited) (elapsed s now) (duration s) in
    ground (arith, e, formula)

-- `vested` of a funded stream succeeds with an amount between zero and the deposit, for every
-- curve, cliff mode and pause.
pub vested_bounds :
    (s : Stream) (now : ℕ)
    → IsFunded now s
    → (v : ℕ) × (vested s now ≡ ok (pos v)) × (pos v ≤ℤ s.deposited)
vested_bounds s now f =
    let v =
      entitled s.curve (pos_part s.deposited) (cliff_reached s now) (elapsed s now) (duration s) in
    let le =
      entitled-le s.curve (pos_part s.deposited) (cliff_reached s now) (elapsed s now)
        (duration s) in
    (v, vested_formula s now f, omega (arith, neg_part_zero s.deposited f.nonneg))

cliff_reached_mono :
    (s : Stream) (t u : ℕ) → t ≤ u → cliff_reached s t ≡ true → cliff_reached s u ≡ true
unfolding cliff_reached stream_time
cliff_reached_mono s t u h = ground arith

elapsed_mono : (s : Stream) (t u : ℕ) → t ≤ u → elapsed s t ≤ elapsed s u
unfolding elapsed stream_time
elapsed_mono s t u h = ground arith

pub IsFunded-later : (s : Stream) (t u : ℕ) → t ≤ u → IsFunded t s → IsFunded u s
IsFunded-later s t u h f = record {
  nonneg = f.nonneg;
  in_range = f.in_range;
  product_fits = λ k. f.product_fits (omega (arith, elapsed_mono s t u h));
}

-- For a stream that is funded at `t` and does not change, what has vested at a later instant is at
-- least what has vested at `t`, and both are computed without an error.
pub vested_mono :
    (s : Stream) (t u : ℕ)
    → IsFunded t s
    → t ≤ u
    → (v w : ℕ) × (vested s t ≡ ok (pos v)) × (vested s u ≡ ok (pos w)) × (v ≤ w)
vested_mono s t u f h = (
  entitled s.curve (pos_part s.deposited) (cliff_reached s t) (elapsed s t) (duration s),
  entitled s.curve (pos_part s.deposited) (cliff_reached s u) (elapsed s u) (duration s),
  vested_formula s t f,
  vested_formula s u (IsFunded-later s t u h f),
  entitled_mono s.curve (pos_part s.deposited) _ _ _ _ (duration s) (cliff_reached_mono s t u h)
      (elapsed_mono s t u h),
)

-- A recorded pause began at or before `now`.
abbrev pub PauseBefore : Option ℕ → ℕ → Type 0
PauseBefore none now = Unit
PauseBefore (some p) now = p ≤ now

-- When the cliff is not after the end, an open pause began no later than now, and the stream clock
-- stands at or after the end, the whole deposit has vested.
pub vested_at_maturity :
    (s : Stream) (now : ℕ)
    → s.cliff_time ≤ s.end_time
    → PauseBefore s.paused_at now
    → s.end_time ≤ stream_time s now
    → vested s now ≡ ok s.deposited
unfolding vested cliff_reached elapsed duration stream_time
vested_at_maturity s now c p h = ground arith

refundable_formula :
    (s : Stream) (now v : ℕ)
    → IsFunded now s
    → vested s now ≡ ok (pos v)
    → v ≤ pos_part s.deposited
    → refundable s now ≡ ok (pos (pos_part s.deposited - v))
unfolding refundable
refundable_formula s now v f e h = ground (
  arith,
  pos_of_nonneg s.deposited f.nonneg,
  checked_sub_pos (pos_part s.deposited) v h f.in_range,
)

-- For a funded stream `vested` and `refundable` succeed with non-negative amounts that add up to
-- exactly the deposit.
pub vested_add_refundable :
    (s : Stream) (now : ℕ)
    → IsFunded now s
    → (v r : ℕ) × (vested s now ≡ ok (pos v))
      × (refundable s now ≡ ok (pos r))
      × (pos (v + r) ≡ s.deposited)
vested_add_refundable s now f =
    let (v, e, h) = vested_bounds s now f in
    let h' : v ≤ pos_part s.deposited = omega (arith, f.nonneg) in
    (
      v,
      pos_part s.deposited - v,
      e,
      refundable_formula s now v f e h',
      ap pos (omega arith) ∙ sym (pos_of_nonneg s.deposited f.nonneg),
    )

-- What can be withdrawn is the vested amount less what was withdrawn before, and zero where that
-- is negative.
pub withdrawable_formula :
    (s : Stream) (now v : ℕ)
    → vested s now ≡ ok (pos v)
    → v < i128_limit
    → pos 0 ≤ℤ s.withdrawn
    → pos_part s.withdrawn < i128_limit
    → withdrawable s now ≡ ok (pos (v - pos_part s.withdrawn))
unfolding withdrawable
withdrawable_formula s now v e l h k = ground (
  arith,
  pos_of_nonneg s.withdrawn h,
  checked_sub_nonneg v (pos_part s.withdrawn) l k,
  saturate_sub v (pos_part s.withdrawn),
)

-- For a funded stream with a withdrawn amount between zero and the deposit, `withdrawable` succeeds
-- with a non-negative amount which, added to what was withdrawn, is at most the deposit.
pub withdrawable_bounds :
    (s : Stream) (now : ℕ)
    → IsFunded now s
    → pos 0 ≤ℤ s.withdrawn
    → s.withdrawn ≤ℤ s.deposited
    → (a : ℕ) × (withdrawable s now ≡ ok (pos a)) × (s.withdrawn +ℤ pos a ≤ℤ s.deposited)
withdrawable_bounds s now f h k =
    let (v, e, le) = vested_bounds s now f in
    let dz = neg_part_zero s.deposited f.nonneg in
    let wz = neg_part_zero s.withdrawn h in
    let hv : v < i128_limit = omega (arith, f.in_range, dz) in
    let hw : pos_part s.withdrawn < i128_limit = omega (arith, f.in_range, dz, wz) in
    (v - pos_part s.withdrawn, withdrawable_formula s now v e hv h hw, omega (int_laws, dz, wz))
