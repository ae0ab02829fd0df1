-- ===== src/Transition/Invariant/Pays.antt =====
-- Well-formedness of a stream under cancellation and top-up.
use fluxora_contracts.Base.{
  ℕ, ◌+◌, ◌≤◌, ◌<◌, ◌≡◌, refl, sym, ap, subst, ◌∙◌, true, false, ℤ, pos, pos_part, arith,
}
use fluxora_contracts.Errors.{ok}
use fluxora_contracts.Types.{Stream, linear, is_terminal, is_paused, is_depleted, is_some}
use fluxora_contracts.Accrual.{vested}
use fluxora_contracts.Accrual.Bounds.{IsFunded, PauseBefore, pos_of_nonneg}
use fluxora_contracts.Transition.Cancel.{settled, quote_cancel}
use fluxora_contracts.Transition.Cancel.Settlement.{
  vested-settled, quote_cancel-partition, settled_schedule,
}
use fluxora_contracts.Transition.TopUp.{topped_up, delegate_topped_up}
use fluxora_contracts.Transition.TopUp.Vesting.{
  HasGrown, topped_up-eq, vested_growth, IsFunded-grown,
}
use fluxora_contracts.Transition.TopUp.Delegated.{topped_up-eq-delegate_topped_up}
use fluxora_contracts.Transition.Invariant.{IsWellFormed, vested_amount_unique, vested_amount-le}
use fluxora_contracts.Transition.Invariant.Keeps.{depleted_live}

settled_fields :
    (s : Stream) (now v : ℕ)
    → let r = settled s now (pos v) in
      (r.deposited ≡ pos v)
      × (r.withdrawn ≡ s.withdrawn)
      × (is_terminal r.status ≡ true)
      × (is_depleted r.status ≡ false)
      × (is_some r.paused_at ≡ is_paused r.status)
      × PauseBefore r.paused_at now
      × (r.start_time ≤ r.end_time)
unfolding settled is_terminal
settled_fields s now v = (refl, refl, refl, refl, refl, tt, ground arith)

-- The settled stream of an amount `v` that has vested.
settled_at :
    (now v : ℕ) (s : Stream)
    → vested s now ≡ ok (pos v)
    → IsWellFormed now s
    → IsWellFormed now (settled s now (pos v))
settled_at now v s e i =
    let r = settled s now (pos v) in
    let (deposited, withdrawn, closed, undrained, coherent, before, ordered) =
      settled_fields s now v in
    let le = vested_amount-le s now in
    let at = vested_amount_unique s now v i.funded e in
    let schedule = settled_schedule s now now (pos v) i.pause_before (omega arith) in
    let funded : IsFunded now r = record {
      nonneg = rw deposited (omega arith);
      in_range = rw deposited (omega (arith, i.funded.in_range));
      product_fits = λ h. absurd (omega arith);
    } in
    let same =
      vested_amount_unique r now v funded
        (vested-settled s now now (pos v) i.pause_before e (omega arith)) in
    record {
      funded = funded;
      withdrawn_nonneg = simp withdrawn i.withdrawn_nonneg;
      covered = simp withdrawn (omega (arith, i.covered, same));
      pause_coherent = coherent;
      pause_before = before;
      ordered = ordered;
      running = λ h. cc (h, closed);
      settled = λ _. same ∙ sym (ap pos_part deposited);
      drained = λ h. cc (h, undrained);
    }

-- When a cancellation of a well-formed stream is quoted, the settled stream with the quoted vested
-- amount is well-formed at that instant.
pub settled-IsWellFormed :
    (now : ℕ) (s : Stream) {v r : ℤ}
    → quote_cancel s now ≡ ok (v, r)
    → IsWellFormed now s
    → IsWellFormed now (settled s now v)
settled-IsWellFormed now s {v} {r} e i =
    let (vest, sum, v_nonneg, r_nonneg) = quote_cancel-partition s now i.funded e in
    let is_v = pos_of_nonneg v v_nonneg in
    subst (λ (z : ℤ). IsWellFormed now (settled s now z)) (sym is_v)
      (settled_at now (pos_part v) s (vest ∙ ap ok is_v) i)

grown_fields :
    (s s' : Stream) (a x : ℕ)
    → HasGrown s a x s'
    → (s'.withdrawn ≡ s.withdrawn)
      × (s'.status ≡ s.status)
      × (s'.paused_at ≡ s.paused_at)
      × (s'.start_time ≡ s.start_time)
      × (s'.end_time ≡ s.end_time + x)
grown_fields s s' a x g = (
  ap (λ (r : Stream). r.withdrawn) g.same,
  ap (λ (r : Stream). r.status) g.same,
  ap (λ (r : Stream). r.paused_at) g.same,
  ap (λ (r : Stream). r.start_time) g.same,
  ap (λ (r : Stream). r.end_time) g.same,
)

-- When `top_up` accepts an amount for a well-formed stream, the stream is well-formed afterwards.
pub topped_up-IsWellFormed :
    (now : ℕ) (s : Stream) (amount : ℤ) {s' : Stream}
    → topped_up s amount now ≡ ok s'
    → IsWellFormed now s
    → IsWellFormed now s'
topped_up-IsWellFormed now s amount {s'} e i =
    let (a, x, is_a, pos_a, g, extends, open_end, live) =
      topped_up-eq s amount now i.funded.nonneg e in
    let range = i.running live in
    let (v, w, hv, hw, le) = vested_growth s s' a x now i.funded range g extends in
    let funded = IsFunded-grown s s' a x now g in
    let (withdrawn, status, pause, start, end) = grown_fields s s' a x g in
    let before = vested_amount_unique s now v i.funded hv in
    let after = vested_amount_unique s' now w funded hw in
    record {
      funded = funded;
      withdrawn_nonneg = simp withdrawn i.withdrawn_nonneg;
      covered = simp withdrawn (omega (arith, i.covered, before, after, le));
      pause_coherent = rw pause (rw status i.pause_coherent);
      pause_before = rw pause i.pause_before;
      ordered = rw start (rw end (omega (arith, range)));
      running = λ _. rw start (rw end (omega (arith, range)));
      settled = λ h. cc (h, status, live);
      drained = λ h. absurd (depleted_live s'.status h (cc (status, live)));
    }

-- A delegated top-up of a linear stream leaves a well-formed stream.
pub delegate_topped_up-IsWellFormed :
    (now : ℕ) (s : Stream) (amount : ℤ) {s' : Stream}
    → s.curve ≡ linear
    → s.start_time < s.end_time
    → delegate_topped_up s amount now ≡ ok s'
    → IsWellFormed now s
    → IsWellFormed now s'
delegate_topped_up-IsWellFormed now s amount c h e i =
    topped_up-IsWellFormed now s amount
      (topped_up-eq-delegate_topped_up s amount now i.funded h c ∙ e) i
