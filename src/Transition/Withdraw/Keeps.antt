-- ===== src/Transition/Withdraw/Keeps.antt =====
-- Well-formedness of a stream under a withdrawal.
use fluxora_contracts.Base.{
  ℕ, ◌+◌, ◌-◌, ◌≤◌, ◌<◌, ◌≡◌, refl, sym, ap, subst, ◌∙◌, true, false, inl, inr, Option, none, some,
  ◌⊎◌, ℤ, pos, pos_part, ◌≤ℤ◌, arith, checked_add-cases, checked_add_u64,
}
use fluxora_contracts.Errors.{ok}
use fluxora_contracts.Types.{
  Stream, StreamStatus, is_terminal, is_paused, is_cancelled, is_some, depleted,
}
use fluxora_contracts.Accrual.{withdrawable, duration, elapsed, cliff_reached, stream_time, vested}
use fluxora_contracts.Accrual.Bounds.{IsFunded, withdrawable_formula, PauseBefore, pos_of_nonneg}
use fluxora_contracts.Transition.Withdraw.{choose_payout, drawn, close_pause}
use fluxora_contracts.Transition.Withdraw.Payout.{choose_payout-eq, HasDrawn, drawn-HasDrawn}
use fluxora_contracts.Transition.Invariant.{
  IsWellFormed, vested_amount, vested-eq, vested_amount_unique, vested_amount-le,
}

-- What depletion leaves.
record IsDrained (s : Stream) (p now : ℕ) (s' : Stream) : Type 0 where
  all_paid : pos_part s.deposited ≤ pos_part s.withdrawn + p
  status : s'.status ≡ depleted
  paused_at : s'.paused_at ≡ none
  start_time : s'.start_time ≡ s.start_time
  end_time : s'.end_time ≡ s.end_time
  clock : elapsed s' now ≡ elapsed s now
  vested : vested s' now ≡ vested s now

vested_same :
    (s s' : Stream) (now : ℕ)
    → s'.deposited ≡ s.deposited
    → s'.curve ≡ s.curve
    → cliff_reached s' now ≡ cliff_reached s now
    → elapsed s' now ≡ elapsed s now
    → duration s' ≡ duration s
    → vested s' now ≡ vested s now
unfolding vested
vested_same s s' now a b c d e = ground arith

drained_clock :
    (s : Stream) (w : ℤ) (o : Option ℕ) (now : ℕ) {s' : Stream}
    → s.paused_at ≡ o
    → PauseBefore o now
    → close_pause (record s { withdrawn = w; status = depleted }) now o ≡ ok s'
    → (s'.status ≡ depleted)
      × (s'.paused_at ≡ none)
      × (s'.start_time ≡ s.start_time)
      × (s'.end_time ≡ s.end_time)
      × (elapsed s' now ≡ elapsed s now)
      × (cliff_reached s' now ≡ cliff_reached s now)
      × (s'.curve ≡ s.curve)
      × (s'.deposited ≡ s.deposited)
unfolding elapsed cliff_reached stream_time checked_add_u64
drained_clock s w none now at before e = (
  ground arith,
  ground arith,
  ground arith,
  ground arith,
  ground arith,
  ground arith,
  ground arith,
  ground arith,
)
drained_clock s w (some p) now at before e = (
  ground arith,
  ground arith,
  ground arith,
  ground arith,
  ground arith,
  ground arith,
  ground arith,
  ground arith,
)

drawn_cases :
    (s s' : Stream) (p now : ℕ)
    → pos 0 ≤ℤ s.withdrawn
    → pos 0 ≤ℤ s.deposited
    → drawn s (pos p) now ≡ ok s'
    → ((s' ≡ record s { withdrawn = pos (pos_part s.withdrawn + p) })
        × (is_cancelled s.status ≡ false → pos_part s.withdrawn + p < pos_part s.deposited))
      ⊎ ((pos_part s.deposited ≤ pos_part s.withdrawn + p)
          × (close_pause
                (record s { withdrawn = pos (pos_part s.withdrawn + p); status = depleted })
                now
                s.paused_at
              ≡ ok s'))
unfolding drawn
drawn_cases s s' p now h k e =
    let w = pos_of_nonneg s.withdrawn h in
    let d = pos_of_nonneg s.deposited k in
    let add = checked_add-cases (pos_part s.withdrawn) p in ground (arith, w, d, add)

IsDrained-of :
    (s s' : Stream) (p now : ℕ)
    → PauseBefore s.paused_at now
    → pos_part s.deposited ≤ pos_part s.withdrawn + p
    → close_pause
        (record s { withdrawn = pos (pos_part s.withdrawn + p); status = depleted })
        now
        s.paused_at
      ≡ ok s'
    → IsDrained s p now s'
unfolding duration
IsDrained-of s s' p now before h e =
    let (status, pause, start, end, clock, gate, curve, deposit) =
      drained_clock s (pos (pos_part s.withdrawn + p)) s.paused_at now refl before e in
    record {
      all_paid = h;
      status = status;
      paused_at = pause;
      start_time = start;
      end_time = end;
      clock = clock;
      vested = vested_same s s' now deposit curve gate clock (ground arith);
    }

drained_fields :
    (k : StreamStatus) (o : Option ℕ) (now : ℕ)
    → k ≡ depleted
    → o ≡ none
    → (is_some o ≡ is_paused k) × PauseBefore o now × (is_terminal k ≡ true)
unfolding is_terminal
drained_fields k o now e h = (ground arith, ground arith, ground arith)

-- An undrained stream is the one before with more withdrawn.
open_amount :
    (s : Stream) (w : ℤ) (now : ℕ)
    → vested_amount (record s { withdrawn = w }) now ≡ vested_amount s now
unfolding vested_amount cliff_reached elapsed duration stream_time
open_amount s w now = ground arith

terms-IsFunded :
    (now : ℕ) (s s' : Stream)
    → s'.deposited ≡ s.deposited
    → s'.start_time ≡ s.start_time
    → s'.end_time ≡ s.end_time
    → elapsed s' now ≡ elapsed s now
    → IsFunded now s
    → IsFunded now s'
unfolding duration
terms-IsFunded now s s' d start end clock f = record {
  nonneg = simp d f.nonneg;
  in_range = simp d f.in_range;
  product_fits = simp (d, start, end, clock) f.product_fits;
}

open-IsWellFormed :
    (now p : ℕ) (s : Stream)
    → pos_part s.withdrawn + p ≤ vested_amount s now
    → (is_cancelled s.status ≡ false → pos_part s.withdrawn + p < pos_part s.deposited)
    → IsWellFormed now s
    → IsWellFormed now (record s { withdrawn = pos (pos_part s.withdrawn + p) })
unfolding elapsed stream_time
open-IsWellFormed now p s h left i =
    let r = record s { withdrawn = pos (pos_part s.withdrawn + p) } in
    let same = open_amount s (pos (pos_part s.withdrawn + p)) now in
    record {
      funded = terms-IsFunded now s r refl refl refl refl i.funded;
      withdrawn_nonneg = omega arith;
      covered = omega (arith, same);
      pause_coherent = i.pause_coherent;
      pause_before = i.pause_before;
      ordered = i.ordered;
      running = i.running;
      settled = λ e. same ∙ i.settled e;
      drained = λ e. ground (arith, i.drained e, left);
    }

drained-IsWellFormed :
    (now p : ℕ) (s s' : Stream)
    → pos_part s.withdrawn + p ≤ vested_amount s now
    → HasDrawn s p now s'
    → IsDrained s p now s'
    → IsWellFormed now s
    → IsWellFormed now s'
drained-IsWellFormed now p s s' h g d i =
    let (coherent, before, closed) =
      drained_fields s'.status s'.paused_at now d.status d.paused_at in
    let funded = terms-IsFunded now s s' g.deposited d.start_time d.end_time d.clock i.funded in
    let same =
      vested_amount_unique s' now (vested_amount s now) funded
        (d.vested ∙ vested-eq s now i.funded) in
    let all = vested_amount-le s now in
    record {
      funded = funded;
      withdrawn_nonneg = simp g.withdrawn (omega arith);
      covered = simp g.withdrawn (omega (arith, same));
      pause_coherent = coherent;
      pause_before = before;
      ordered = simp (d.start_time, d.end_time) i.ordered;
      running = λ e. cc (e, closed);
      settled = λ _. simp g.deposited (omega (arith, same, d.all_paid));
      drained = λ _. simp (g.deposited, g.withdrawn) (omega (arith, d.all_paid));
    }

drawn_within :
    (now p : ℕ) (s s' : Stream)
    → pos_part s.withdrawn + p ≤ vested_amount s now
    → drawn s (pos p) now ≡ ok s'
    → IsWellFormed now s
    → IsWellFormed now s'
drawn_within now p s s' h e i = elim (drawn_cases s s' p now i.withdrawn_nonneg i.funded.nonneg e) [
  | inl (same, left) ↦ subst (IsWellFormed now) (sym same) (open-IsWellFormed now p s h left i)
  | inr (all_paid, closed) ↦
      drained-IsWellFormed now p s s' h (drawn-HasDrawn s p now i.withdrawn_nonneg e)
        (IsDrained-of s s' p now i.pause_before all_paid closed) i
]

pub withdrawable-eq :
    (now : ℕ) (s : Stream)
    → IsWellFormed now s
    → withdrawable s now ≡ ok (pos (vested_amount s now - pos_part s.withdrawn))
withdrawable-eq now s i =
    let le = vested_amount-le s now in
    withdrawable_formula s now (vested_amount s now) (vested-eq s now i.funded)
      (omega (arith, i.funded.in_range)) i.withdrawn_nonneg
      (omega (arith, i.funded.in_range, i.covered))

-- When `choose_payout` accepts a withdrawal from a well-formed stream and the payout is applied,
-- the stream is well-formed again, also where the payout depletes it and closes an open pause, and
-- its withdrawn amount has grown by exactly the payout.
pub drawn-IsWellFormed :
    (now : ℕ) (s : Stream) (amount : Option ℤ) {payout : ℤ} {s' : Stream}
    → choose_payout s now amount ≡ ok payout
    → drawn s payout now ≡ ok s'
    → IsWellFormed now s
    → IsWellFormed now s' × (s'.withdrawn ≡ pos (pos_part s.withdrawn + pos_part payout))
drawn-IsWellFormed now s amount {payout} {s'} chosen e i =
    let available = vested_amount s now - pos_part s.withdrawn in
    let (p, is_p, pos_p, within, all, requested) =
      choose_payout-eq s now available amount (withdrawable-eq now s i) chosen in
    let e' = subst (λ (z : ℤ). drawn s z now ≡ ok s') is_p e in
    (
      drawn_within now p s s' (omega (arith, i.covered, pos_p)) e' i,
      (drawn-HasDrawn s p now i.withdrawn_nonneg e').withdrawn
          ∙ ap (λ (z : ℤ). pos (pos_part s.withdrawn + pos_part z)) (sym is_p),
    )
