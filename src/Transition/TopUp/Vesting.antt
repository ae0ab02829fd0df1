-- ===== src/Transition/TopUp/Vesting.antt =====
-- What a top-up changes in a stream, and in what it has vested.
use fluxora_contracts.Base.{
  ℕ, ◌+◌, ◌-◌, ◌*◌, ◌/◌, ◌≤◌, ◌<◌, ◌≡◌, refl, sym, ap, subst, subst₂, false, inl, inr, leb_ℤ, ℤ,
  pos, pos_part, ◌≤ℤ◌, arith, i128_limit, u64_max, checked_add-cases, checked_mul-cases,
  checked_div-cases, checked_add_u64, checked_sub_u64, as_u64,
}
use native.Mathlib.Nat.{div-mul-le_self}
use fluxora_contracts.Errors.{Result-cases, ok}
use fluxora_contracts.Types.{is_terminal, Stream, ReleaseCurve, linear, step, front_loaded}
use fluxora_contracts.Accrual.{stream_time, duration, elapsed, cliff_reached, vested}
use fluxora_contracts.Accrual.Bounds.{
  IsFunded, IsFunded-later, entitled, vested_formula, pos_of_nonneg,
}
use fluxora_contracts.Transition.TopUp.{
  linear_delta, delta_by_curve, top_up_duration_delta, grown, check_top_up, topped_up,
}
use fluxora_contracts.Transition.TopUp.Growth.{Extends, entitled_growth}

pub positive : (z : ℤ) → leb_ℤ z (pos 0) ≡ false → (a : ℕ) × (z ≡ pos a) × (0 < a)
positive z h = (pos_part z, ground arith, ground arith)

-- A linear delta of a stream with deposit `d`: at most `a * t / d` seconds, and at least one.
pub linear_delta-eq :
    (s : Stream) (a t d : ℕ) {delta : ℤ}
    → s.deposited ≡ pos d
    → linear_delta s (pos a) (pos t) ≡ ok delta
    → (x : ℕ) × (delta ≡ pos x) × (d * x ≤ a * t) × (0 < x) × (x ≤ u64_max)
unfolding linear_delta
linear_delta-eq s a t d {delta} dep e =
    let mul = checked_mul-cases a t in
    let div = checked_div-cases (a * t) d in
    (
      a * t / d,
      ground (arith, mul, div),
      omega (arith, div-mul-le_self (a * t) d),
      ground (arith, mul, div),
      ground (arith, mul, div),
    )

-- A growth by `a` and `x` sets exactly the deposit and the end, within the range.
grown-eq :
    (s : Stream) (a x d : ℕ) {s' : Stream}
    → s.deposited ≡ pos d
    → x ≤ u64_max
    → grown s (pos a) (pos x) ≡ ok s'
    → (s' ≡ record s { deposited = pos (d + a); end_time = s.end_time + x })
      × (s.start_time ≤ s.end_time + x)
      × (d + a < i128_limit)
      × ((d + a) * (s.end_time + x - s.start_time) < i128_limit)
      × (s.end_time + x - s.start_time ≤ d + a)
unfolding grown checked_add_u64 checked_sub_u64 as_u64
grown-eq s a x d dep h e =
    let add = checked_add-cases d a in
    let mul = checked_mul-cases (d + a) (s.end_time + x - s.start_time) in ground (arith, add, mul)

-- What a top-up of a funded stream by `a` is: the deposit grows by `a`, the end moves by `x` seconds
-- as the curve allows, and the guards of creation hold again.
pub record HasGrown (s : Stream) (a x : ℕ) (s' : Stream) : Type 0 where
  pub same : s' ≡ record s { deposited = pos (pos_part s.deposited + a); end_time = s.end_time + x }
  pub started : s.start_time ≤ s.end_time + x
  pub in_range : pos_part s.deposited + a < i128_limit
  pub product_fits : (pos_part s.deposited + a) * (s.end_time + x - s.start_time) < i128_limit
  pub rate : s.end_time + x - s.start_time ≤ pos_part s.deposited + a

pub check_top_up-ok :
    (s : Stream) (amount : ℤ) (now : ℕ)
    → check_top_up s amount now ≡ ok tt
    → (leb_ℤ amount (pos 0) ≡ false)
      × (stream_time s now < s.end_time)
      × (is_terminal s.status ≡ false)
unfolding check_top_up
check_top_up-ok s amount now e = ground arith

delta_by_curve-eq :
    (s : Stream) (a : ℕ) {delta : ℤ}
    → pos 0 ≤ℤ s.deposited
    → top_up_duration_delta s (pos a) (pos (duration s)) ≡ ok delta
    → (x : ℕ) × (delta ≡ pos x)
      × Extends s.curve (pos_part s.deposited) a (duration s) x
      × (x ≤ u64_max)
unfolding top_up_duration_delta
delta_by_curve-eq s a {delta} h e = go s.curve e
  where
    go :
        (k : ReleaseCurve)
        → delta_by_curve k s (pos a) (pos (duration s)) ≡ ok delta
        → (x : ℕ) × (delta ≡ pos x)
          × Extends k (pos_part s.deposited) a (duration s) x
          × (x ≤ u64_max)
    go linear e =
        let (x, same, cost, some_time, small) =
          linear_delta-eq s a (duration s) (pos_part s.deposited) (pos_of_nonneg s.deposited h) e in
        (x, same, cost, small)
    go step e = (0, ground arith, refl, omega arith)
    go front_loaded e = (0, ground arith, refl, omega arith)

topped_up_steps :
    (s : Stream) (amount : ℤ) (now : ℕ) {s' : Stream}
    → topped_up s amount now ≡ ok s'
    → (delta : ℤ) × (check_top_up s amount now ≡ ok tt)
      × (top_up_duration_delta s amount (pos (duration s)) ≡ ok delta)
      × (grown s amount delta ≡ ok s')
unfolding topped_up
topped_up_steps s amount now {s'} e =
    elim (Result-cases (top_up_duration_delta s amount (pos (duration s)))) [
      | inl (delta, d) ↦ elim (Result-cases (grown s amount delta)) [
        | inl (r, g) ↦ (delta, ground arith, d, ground (arith, g))
        | inr bad ↦ absurd (ground arith)
      ]
      | inr bad ↦ absurd (ground arith)
    ]

pub grown-HasGrown :
    (s s' : Stream) (a x : ℕ)
    → pos 0 ≤ℤ s.deposited
    → x ≤ u64_max
    → grown s (pos a) (pos x) ≡ ok s'
    → HasGrown s a x s'
grown-HasGrown s s' a x h l e =
    let (same, started, in_range, product_fits, rate) =
      grown-eq s a x (pos_part s.deposited) (pos_of_nonneg s.deposited h) l e in
    record {
      same = same;
      started = started;
      in_range = in_range;
      product_fits = product_fits;
      rate = rate;
    }

-- Inversion of `topped_up`, with the comparison of the guard.
pub topped_up-eq :
    (s : Stream) (amount : ℤ) (now : ℕ) {s' : Stream}
    → pos 0 ≤ℤ s.deposited
    → topped_up s amount now ≡ ok s'
    → (a x : ℕ) × (amount ≡ pos a)
      × (0 < a)
      × HasGrown s a x s'
      × Extends s.curve (pos_part s.deposited) a (duration s) x
      × (stream_time s now < s.end_time)
      × (is_terminal s.status ≡ false)
topped_up-eq s amount now {s'} h e =
    let (delta, checks, bought, grew) = topped_up_steps s amount now e in
    let (more, open_end, live) = check_top_up-ok s amount now checks in
    let (a, is_a, pos_a) = positive amount more in
    let bought' =
      subst (λ (z : ℤ). top_up_duration_delta s z (pos (duration s)) ≡ ok delta) is_a bought in
    let (x, is_x, extends, small) = delta_by_curve-eq s a h bought' in
    let grew' = subst₂ (λ (y z : ℤ). grown s y z ≡ ok s') is_a is_x grew in
    (a, x, is_a, pos_a, grown-HasGrown s s' a x h small grew', extends, open_end, live)

elapsed-extended :
    (s : Stream) (d : ℤ) (x t : ℕ)
    → s.start_time < s.end_time
    → let r = record s { deposited = d; end_time = s.end_time + x } in
      (elapsed s t ≤ elapsed r t)
      × (elapsed s t ≤ duration s)
      × (x ≡ 0 → elapsed r t ≡ elapsed s t)
      × (duration r ≡ duration s + x)
      × (cliff_reached r t ≡ cliff_reached s t)
unfolding elapsed duration cliff_reached stream_time
elapsed-extended s d x t h =
    (ground arith, ground arith, λ z. ground arith, ground arith, ground arith)

pub elapsed-grown :
    (s s' : Stream) (a x t : ℕ)
    → HasGrown s a x s'
    → s.start_time < s.end_time
    → (elapsed s t ≤ elapsed s' t)
      × (elapsed s t ≤ duration s)
      × (x ≡ 0 → elapsed s' t ≡ elapsed s t)
      × (duration s' ≡ duration s + x)
      × (cliff_reached s' t ≡ cliff_reached s t)
elapsed-grown s s' a x t g h =
    subst
      (λ (r : Stream).
        (elapsed s t ≤ elapsed r t)
        × (elapsed s t ≤ duration s)
        × (x ≡ 0 → elapsed r t ≡ elapsed s t)
        × (duration r ≡ duration s + x)
        × (cliff_reached r t ≡ cliff_reached s t))
      (sym g.same) (elapsed-extended s (pos (pos_part s.deposited + a)) x t h)

extended-IsFunded :
    (s : Stream) (d x now : ℕ)
    → d < i128_limit
    → d * (s.end_time + x - s.start_time) < i128_limit
    → IsFunded now (record s { deposited = pos d; end_time = s.end_time + x })
unfolding duration
extended-IsFunded s d x now h k = record {
  nonneg = omega arith;
  in_range = h;
  product_fits = λ _. k;
}

pub IsFunded-grown : (s s' : Stream) (a x now : ℕ) → HasGrown s a x s' → IsFunded now s'
IsFunded-grown s s' a x now g =
    subst (IsFunded now) (sym g.same)
      (extended-IsFunded s (pos_part s.deposited + a) x now g.in_range g.product_fits)

positive_duration : (s : Stream) → s.start_time < s.end_time → 0 < duration s
unfolding duration
positive_duration s h = omega arith

pub vested_growth :
    (s s' : Stream) (a x t : ℕ)
    → IsFunded t s
    → s.start_time < s.end_time
    → HasGrown s a x s'
    → Extends s.curve (pos_part s.deposited) a (duration s) x
    → (v w : ℕ) × (vested s t ≡ ok (pos v)) × (vested s' t ≡ ok (pos w)) × (v ≤ w)
vested_growth s s' a x t f h g extends =
    let (later, capped, fixed, longer, gate) = elapsed-grown s s' a x t g h in
    let curve : s'.curve ≡ s.curve = ap (λ (r : Stream). r.curve) g.same in
    let deposit : pos_part s'.deposited ≡ pos_part s.deposited + a =
      ap (λ (r : Stream). pos_part r.deposited) g.same in
    (
      entitled s.curve (pos_part s.deposited) (cliff_reached s t) (elapsed s t) (duration s),
      entitled s'.curve (pos_part s'.deposited) (cliff_reached s' t) (elapsed s' t) (duration s'),
      vested_formula s t f,
      vested_formula s' t (IsFunded-grown s s' a x t g),
      simp (curve, deposit, longer, gate)
          (entitled_growth s.curve (pos_part s.deposited) a (duration s) x (elapsed s t)
            (elapsed s' t) (cliff_reached s t) extends later capped fixed (positive_duration s h)),
    )

-- When `top_up` accepts an amount for a funded stream with a positive duration, the stream has
-- vested, at the call and at every later instant, at least as much as it would have without the
-- top-up, for every curve.
pub vested_after_top_up :
    (s : Stream) (amount : ℤ) (now t : ℕ) {s' : Stream}
    → IsFunded now s
    → s.start_time < s.end_time
    → now ≤ t
    → topped_up s amount now ≡ ok s'
    → (v w : ℕ) × (vested s t ≡ ok (pos v)) × (vested s' t ≡ ok (pos w)) × (v ≤ w)
vested_after_top_up s amount now t {s'} f h later e =
    let (a, x, is_a, pos_a, g, extends, open_end, live) = topped_up-eq s amount now f.nonneg e in
    vested_growth s s' a x t (IsFunded-later s now t later f) h g extends
