-- ===== src/Transition/Cancel/Settlement.antt =====
-- The quote of a cancellation, and what the settled stream has vested.
use fluxora_contracts.Base.{
  ℕ, ◌≤◌, ◌≡◌, refl, sym, ◌∙◌, ap, true, false, inl, inr, ℤ, pos, ◌≤ℤ◌, ◌+ℤ◌, arith, Bool-cases,
}
use fluxora_contracts.Errors.{ok}
use fluxora_contracts.Types.{Stream}
use fluxora_contracts.Accrual.{stream_time, duration, elapsed, cliff_reached, vested}
use fluxora_contracts.Accrual.Bounds.{IsFunded, PauseBefore, vested_add_refundable}
use fluxora_contracts.Transition.Cancel.{quote_cancel, settled}

-- Before the cliff nothing has vested.
vested_before_cliff :
    (s : Stream) (now : ℕ) {v : ℤ} → cliff_reached s now ≡ false → vested s now ≡ ok v → v ≡ pos 0
unfolding vested
vested_before_cliff s now c e = ground arith

cliff_reached-settled :
    (s : Stream) (now t : ℕ) (v : ℤ)
    → PauseBefore s.paused_at now
    → now ≤ t
    → cliff_reached s now ≡ true
    → cliff_reached (settled s now v) t ≡ true
unfolding cliff_reached stream_time settled
cliff_reached-settled s now t v p h c = ground arith

pub settled_schedule :
    (s : Stream) (now t : ℕ) (v : ℤ)
    → PauseBefore s.paused_at now
    → now ≤ t
    → duration (settled s now v) ≤ elapsed (settled s now v) t
unfolding duration elapsed stream_time settled
settled_schedule s now t v p h = ground arith

settled_deposit : (s : Stream) (now : ℕ) (v : ℤ) → (settled s now v).deposited ≡ v
unfolding settled
settled_deposit s now v = refl

-- A stream whose gate is open and whose schedule is consumed has vested its deposit.
vested_complete :
    (s : Stream) (t : ℕ)
    → cliff_reached s t ≡ true
    → duration s ≤ elapsed s t
    → vested s t ≡ ok s.deposited
unfolding vested
vested_complete s t c h = ground arith

vested_of_zero :
    (s : Stream) (t : ℕ) → s.deposited ≡ pos 0 → duration s ≤ elapsed s t → vested s t ≡ ok (pos 0)
unfolding vested
vested_of_zero s t d h = ground arith

-- If the vested amount of a stream was computed at its cancellation, and an open pause began no
-- later, then at the cancellation and at every later instant the settled stream has vested exactly
-- the amount that had vested at the cancellation.
pub vested-settled :
    (s : Stream) (now t : ℕ) (v : ℤ)
    → PauseBefore s.paused_at now
    → vested s now ≡ ok v
    → now ≤ t
    → vested (settled s now v) t ≡ ok v
vested-settled s now t v p e h = elim (Bool-cases (cliff_reached s now)) [
  | inl c ↦
      vested_complete (settled s now v) t (cliff_reached-settled s now t v p h c)
        (settled_schedule s now t v p h)
      ∙ ap ok (settled_deposit s now v)
  | inr c ↦
      let z = vested_before_cliff s now c e in
      vested_of_zero (settled s now v) t (settled_deposit s now v ∙ z)
        (settled_schedule s now t v p h)
      ∙ ap ok (sym z)
]

-- A cancellation quote of a funded stream is the vested amount and a refund, both non-negative,
-- whose sum is exactly the deposit.
pub quote_cancel-partition :
    (s : Stream) (now : ℕ) {v r : ℤ}
    → IsFunded now s
    → quote_cancel s now ≡ ok (v, r)
    → (vested s now ≡ ok v) × (v +ℤ r ≡ s.deposited) × (pos 0 ≤ℤ v) × (pos 0 ≤ℤ r)
unfolding quote_cancel ◌+ℤ◌
quote_cancel-partition s now f e =
    let (v', r', hv, hr, sum) = vested_add_refundable s now f in ground arith
