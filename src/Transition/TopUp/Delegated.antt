-- ===== src/Transition/TopUp/Delegated.antt =====
-- The delegated top-up beside the direct one.
use fluxora_contracts.Base.{
  ℕ, ◌*◌, ◌/◌, ◌≤◌, ◌<◌, ◌≡◌, sym, ap, subst, subst₂, true, inl, inr, ℤ, pos, pos_part, ◌≤ℤ◌, arith,
  div_ceil, ◌∙◌,
}
use fluxora_contracts.Errors.{Result-cases, ok}
use fluxora_contracts.Types.{Stream, ReleaseCurve, linear, step}
use fluxora_contracts.Accrual.{duration, elapsed, cliff_reached, vested, tranches}
use fluxora_contracts.Accrual.Curves.{released}
use fluxora_contracts.Accrual.Bounds.{IsFunded, entitled, vested_formula, pos_of_nonneg}
use fluxora_contracts.Transition.TopUp.{
  linear_delta, top_up_duration_delta, grown, check_top_up, topped_up, delegate_topped_up,
}
use fluxora_contracts.Transition.TopUp.Growth.{Extends, mul_le, div_mono}
use fluxora_contracts.Transition.TopUp.Vesting.{
  HasGrown, positive, check_top_up-ok, linear_delta-eq, grown-HasGrown, vested_growth,
  IsFunded-grown, elapsed-grown,
}

delegate_steps :
    (s : Stream) (amount : ℤ) (now : ℕ) {s' : Stream}
    → delegate_topped_up s amount now ≡ ok s'
    → (delta : ℤ) × (check_top_up s amount now ≡ ok tt)
      × (linear_delta s amount (pos (duration s)) ≡ ok delta)
      × (grown s amount delta ≡ ok s')
unfolding delegate_topped_up
delegate_steps s amount now {s'} e =
    elim (Result-cases (linear_delta s amount (pos (duration s)))) [
      | inl (delta, d) ↦ (delta, ground arith, d, ground arith)
      | inr bad ↦ absurd (ground arith)
    ]

-- The same from the parts.
delegate_parts :
    (s s' : Stream) (amount delta : ℤ) (now : ℕ)
    → pos 0 ≤ℤ s.deposited
    → check_top_up s amount now ≡ ok tt
    → linear_delta s amount (pos (duration s)) ≡ ok delta
    → grown s amount delta ≡ ok s'
    → (a x : ℕ) × (amount ≡ pos a)
      × (0 < a)
      × (0 < x)
      × HasGrown s a x s'
      × (pos_part s.deposited * x ≤ a * duration s)
delegate_parts s s' amount delta now h checks bought grew =
    let (more, open_end, live) = check_top_up-ok s amount now checks in
    let (a, is_a, pos_a) = positive amount more in
    let bought' = subst (λ (z : ℤ). linear_delta s z (pos (duration s)) ≡ ok delta) is_a bought in
    let (x, is_x, cost, pos_x, small) =
      linear_delta-eq s a (duration s) (pos_part s.deposited) (pos_of_nonneg s.deposited h)
        bought' in
    let grew' = subst₂ (λ (y z : ℤ). grown s y z ≡ ok s') is_a is_x grew in
    (a, x, is_a, pos_a, pos_x, grown-HasGrown s s' a x h small grew', cost)

-- Inversion of the delegated top-up.
pub delegate_topped_up-eq :
    (s : Stream) (amount : ℤ) (now : ℕ) {s' : Stream}
    → pos 0 ≤ℤ s.deposited
    → delegate_topped_up s amount now ≡ ok s'
    → (a x : ℕ) × (amount ≡ pos a)
      × (0 < a)
      × (0 < x)
      × HasGrown s a x s'
      × (pos_part s.deposited * x ≤ a * duration s)
delegate_topped_up-eq s amount now {s'} h e =
    let (delta, checks, bought, grew) = delegate_steps s amount now e in
    delegate_parts s s' amount delta now h checks bought grew

delta-linear :
    (s : Stream) (amount t : ℤ)
    → s.curve ≡ linear
    → top_up_duration_delta s amount t ≡ linear_delta s amount t
unfolding top_up_duration_delta
delta-linear s amount t c = ground arith

linear-Extends : (k : ReleaseCurve) (d a t x : ℕ) → k ≡ linear → d * x ≤ a * t → Extends k d a t x
linear-Extends k d a t x c h = subst (λ (r : ReleaseCurve). Extends r d a t x) (sym c) h

no_decrease :
    (s s' : Stream) (amount delta : ℤ) (now : ℕ)
    → IsFunded now s
    → s.start_time < s.end_time
    → s.curve ≡ linear
    → check_top_up s amount now ≡ ok tt
    → linear_delta s amount (pos (duration s)) ≡ ok delta
    → grown s amount delta ≡ ok s'
    → (v w : ℕ) × (vested s now ≡ ok (pos v)) × (vested s' now ≡ ok (pos w)) × (v ≤ w)
no_decrease s s' amount delta now f h c checks bought grew =
    let (a, x, is_a, pos_a, pos_x, g, cost) =
      delegate_parts s s' amount delta now f.nonneg checks bought grew in
    vested_growth s s' a x now f h g
      (linear-Extends s.curve (pos_part s.deposited) a (duration s) x c cost)

-- On a funded linear stream with a positive duration `top_up` and `delegate_top_up` compute the
-- same result, a stream or an error: the guard against a decrease, which only `top_up` has, never
-- fires there.
pub topped_up-eq-delegate_topped_up :
    (s : Stream) (amount : ℤ) (now : ℕ)
    → IsFunded now s
    → s.start_time < s.end_time
    → s.curve ≡ linear
    → topped_up s amount now ≡ delegate_topped_up s amount now
unfolding topped_up delegate_topped_up
topped_up-eq-delegate_topped_up s amount now f h c =
    let d = delta-linear s amount (pos (duration s)) c in
    elim (Result-cases (check_top_up s amount now)) [
      | inr bad ↦ ground arith
      | inl (done, checks) ↦ elim (Result-cases (linear_delta s amount (pos (duration s)))) [
        | inr bad ↦ ground arith
        | inl (delta, bought) ↦ elim (Result-cases (grown s amount delta)) [
          | inr bad ↦ ground arith
          | inl (s', grew) ↦
              ground (arith, no_decrease s s' amount delta now f h c checks bought grew)
        ]
      ]
    ]

tranches_none : (c t : ℕ) → 4 * c < t → tranches c t ≡ 0
unfolding div_ceil
tranches_none c t h = ground arith

tranches_some : (c t : ℕ) → t ≤ 4 * c → 1 ≤ tranches c t
unfolding div_ceil
tranches_some c t h = ground arith

quarter_le : (d k : ℕ) → 1 ≤ k → d / 4 ≤ d * k / 4
quarter_le d k h = div_mono d (d * k) 4 (omega (arith, mul_le d 1 k h)) (omega arith)

no_share : (d k : ℕ) → k ≡ 0 → d * k / 4 ≡ 0
no_share d k h = rw h (omega arith)

quarter_before : (d c t : ℕ) → t ≤ 4 * c → d / 4 ≤ entitled step d true c t
unfolding entitled released
quarter_before d c t h =
    ground (arith, quarter_le d (tranches c t) (tranches_some c t h), quarter_le d 4 (omega arith))

nothing_after : (d c t : ℕ) → 4 * c < t → entitled step d true c t ≡ 0
unfolding entitled released
nothing_after d c t h =
    ground (arith, tranches_none c t h, no_share d (tranches c t) (tranches_none c t h))

-- On a funded step stream of positive duration whose cliff is reached, when a delegated top-up is
-- accepted, the first quarter was consumed before it and is not consumed under the longer schedule,
-- the vested amount falls from at least a quarter of the deposit to zero.
pub delegate_top_up_revokes_tranche :
    (s s' : Stream) (amount : ℤ) (now : ℕ)
    → IsFunded now s
    → s.start_time < s.end_time
    → s.curve ≡ step
    → cliff_reached s now ≡ true
    → delegate_topped_up s amount now ≡ ok s'
    → duration s ≤ 4 * elapsed s now
    → 4 * elapsed s' now < duration s'
    → (v : ℕ) × (vested s now ≡ ok (pos v))
      × (pos_part s.deposited / 4 ≤ v)
      × (vested s' now ≡ ok (pos 0))
delegate_top_up_revokes_tranche s s' amount now f h c gate e before after =
    let (a, x, is_a, pos_a, pos_x, g, cost) = delegate_topped_up-eq s amount now f.nonneg e in
    let (later, capped, fixed, longer, gate') = elapsed-grown s s' a x now g h in
    let curve : s'.curve ≡ s.curve = ap (λ (r : Stream). r.curve) g.same in
    (
      entitled s.curve (pos_part s.deposited) (cliff_reached s now) (elapsed s now) (duration s),
      vested_formula s now f,
      simp (c, gate) (quarter_before (pos_part s.deposited) (elapsed s now) (duration s) before),
      vested_formula s' now (IsFunded-grown s s' a x now g)
          ∙ ap ok (
              ap pos (
                simp (curve, c, gate', gate)
                  (nothing_after (pos_part s'.deposited) (elapsed s' now) (duration s') after))),
    )
