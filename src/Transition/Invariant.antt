-- ===== src/Transition/Invariant.antt =====
-- The well-formedness of a stream at an instant: the invariants that the accrual module of the source
-- states for every stream, with what its arithmetic needs.
pub mod Keeps
pub mod Pays
pub mod Steps
use fluxora_contracts.Base.{
  ℕ, ◌≤◌, ◌<◌, ◌≡◌, ap, sym, ◌∙◌, ℤ, pos, pos_part, ◌≤ℤ◌, Bool, true, false, arith, Option,
}
use fluxora_contracts.Errors.{Result, ok}
use fluxora_contracts.Types.{Stream, is_terminal, is_paused, is_cancelled, is_depleted, is_some}
use fluxora_contracts.Accrual.{duration, elapsed, cliff_reached, vested}
use fluxora_contracts.Accrual.Bounds.{
  IsFunded, IsFunded-later, PauseBefore, entitled, entitled-le, vested_formula, vested_mono,
}

unfoldable pub vested_amount : Stream → ℕ → ℕ
vested_amount s now =
    entitled s.curve (pos_part s.deposited) (cliff_reached s now) (elapsed s now) (duration s)

pub vested-eq :
    (s : Stream) (now : ℕ) → IsFunded now s → vested s now ≡ ok (pos (vested_amount s now))
unfolding vested_amount
vested-eq s now f = vested_formula s now f

pub vested_amount-le : (s : Stream) (now : ℕ) → vested_amount s now ≤ pos_part s.deposited
unfolding vested_amount
vested_amount-le s now =
    entitled-le s.curve (pos_part s.deposited) (cliff_reached s now) (elapsed s now) (duration s)

-- The amount is determined by the result of `vested`.
pub vested_amount_unique :
    (s : Stream) (now v : ℕ) → IsFunded now s → vested s now ≡ ok (pos v) → vested_amount s now ≡ v
vested_amount_unique s now v f e = cc (vested-eq s now f, e)

pub vested_amount_mono :
    (s : Stream) (t u : ℕ) → IsFunded t s → t ≤ u → vested_amount s t ≤ vested_amount s u
vested_amount_mono s t u f h =
    let (v, w, hv, hw, le) = vested_mono s t u f h in
    omega (
      arith,
      vested_amount_unique s t v f hv,
      vested_amount_unique s u w (IsFunded-later s t u h f) hw,
    )

pub record IsWellFormed (now : ℕ) (s : Stream) : Type 0 where
  pub funded : IsFunded now s
  pub withdrawn_nonneg : pos 0 ≤ℤ s.withdrawn
  pub covered : pos_part s.withdrawn ≤ vested_amount s now
  pub pause_coherent : is_some s.paused_at ≡ is_paused s.status
  pub pause_before : PauseBefore s.paused_at now
  pub ordered : s.start_time ≤ s.end_time
  pub running : is_terminal s.status ≡ false → s.start_time < s.end_time
  pub settled : is_terminal s.status ≡ true → vested_amount s now ≡ pos_part s.deposited
  pub drained : is_depleted s.status ≡ true → pos_part s.withdrawn ≡ pos_part s.deposited

PauseBefore-later : (o : Option ℕ) (t u : ℕ) → t ≤ u → PauseBefore o t → PauseBefore o u
PauseBefore-later o t u h p = ground arith

-- A well-formed stream stays well-formed as time passes.
pub IsWellFormed-later : (s : Stream) (t u : ℕ) → t ≤ u → IsWellFormed t s → IsWellFormed u s
IsWellFormed-later s t u h i = record {
  funded = IsFunded-later s t u h i.funded;
  withdrawn_nonneg = i.withdrawn_nonneg;
  covered = omega (arith, i.covered, vested_amount_mono s t u i.funded h);
  pause_coherent = i.pause_coherent;
  pause_before = PauseBefore-later s.paused_at t u h i.pause_before;
  ordered = i.ordered;
  running = i.running;
  settled =
      λ e. omega (arith, i.settled e, vested_amount_mono s t u i.funded h, vested_amount-le s u);
  drained = i.drained;
}
