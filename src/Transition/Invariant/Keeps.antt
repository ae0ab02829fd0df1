-- ===== src/Transition/Invariant/Keeps.antt =====
-- Well-formedness of a stream under creation, pause, resumption and transfer.
use fluxora_contracts.Base.{
  ℕ, ◌-◌, ◌*◌, ◌≤◌, ◌<◌, ◌≡◌, refl, ◌∙◌, true, false, Option, none, some, pos, pos_part, arith,
  i128_limit, checked_mul-cases, checked_add_u64,
}
use fluxora_contracts.Errors.{ok}
use fluxora_contracts.Types.{
  Address, Stream, StreamStatus, is_terminal, is_paused, is_depleted, is_some,
}
use fluxora_contracts.Accrual.{duration, elapsed, cliff_reached, stream_time, vested}
use fluxora_contracts.Accrual.Bounds.{IsFunded, PauseBefore}
use fluxora_contracts.Accrual.Curves.{mul_le}
use fluxora_contracts.Transition.Create.{StreamTerms, check_terms, new_stream}
use fluxora_contracts.Transition.Pause.{frozen, thawed, check_pause, check_resume}
use fluxora_contracts.Transition.Pause.Clock.{pause_began, vested-frozen, vested-thawed}
use fluxora_contracts.Transition.Transfer.{assigned}
use fluxora_contracts.Transition.Invariant.{
  IsWellFormed, vested_amount, vested-eq, vested_amount_unique,
}

-- The range that the checks of a creation establish.
pub check_terms-ok :
    (sender : Address) (t : StreamTerms)
    → check_terms sender t ≡ ok tt
    → (d : ℕ) × (t.deposit ≡ pos d)
      × (0 < d)
      × (t.start_time < t.end_time)
      × (t.start_time ≤ t.cliff_time)
      × (t.cliff_time ≤ t.end_time)
      × (t.end_time - t.start_time ≤ d)
      × (d * (t.end_time - t.start_time) < i128_limit)
unfolding check_terms
check_terms-ok sender t e =
    let fits = checked_mul-cases (pos_part t.deposit) (t.end_time - t.start_time) in
    (
      pos_part t.deposit,
      ground (arith, fits),
      ground (arith, fits),
      ground (arith, fits),
      ground (arith, fits),
      ground (arith, fits),
      ground (arith, fits),
      ground (arith, fits),
    )

deposit_in_range : (d t : ℕ) → 0 < t → d * t < i128_limit → d < i128_limit
deposit_in_range d t p h = omega (arith, mul_le d 1 t p)

-- A stream created from terms that pass the checks of a creation is well-formed at every instant.
pub new_stream-IsWellFormed :
    (sender : Address) (t : StreamTerms) (now : ℕ)
    → check_terms sender t ≡ ok tt
    → IsWellFormed now (new_stream sender t)
unfolding new_stream duration is_terminal
new_stream-IsWellFormed sender t now e =
    let (d, is_d, pos_d, range, cliff, cliff', rate, fits) = check_terms-ok sender t e in
    record {
      funded = record {
        nonneg = ground arith;
        in_range = rw is_d (deposit_in_range d (t.end_time - t.start_time) (omega arith) fits);
        product_fits = λ _. rw is_d fits;
      };
      withdrawn_nonneg = omega arith;
      covered = omega arith;
      pause_coherent = refl;
      pause_before = tt;
      ordered = omega arith;
      running = λ _. range;
      settled = λ h. cc;
      drained = λ h. cc;
    }

-- The fields by which the amounts of a stream are computed, unchanged.
pub record SameTerms (now : ℕ) (s s' : Stream) : Type 0 where
  pub deposited : s'.deposited ≡ s.deposited
  pub withdrawn : s'.withdrawn ≡ s.withdrawn
  pub start_time : s'.start_time ≡ s.start_time
  pub end_time : s'.end_time ≡ s.end_time
  pub elapsed_same : elapsed s' now ≡ elapsed s now

pub SameTerms-IsFunded :
    (now : ℕ) (s s' : Stream) → SameTerms now s s' → IsFunded now s → IsFunded now s'
unfolding duration
SameTerms-IsFunded now s s' m f = record {
  nonneg = simp m.deposited f.nonneg;
  in_range = simp m.deposited f.in_range;
  product_fits = simp (m.deposited, m.start_time, m.end_time, m.elapsed_same) f.product_fits;
}

-- A change that leaves the accrual alone at `now` leaves the amount vested alone.
pub same_amount :
    (now : ℕ) (s s' : Stream)
    → SameTerms now s s'
    → IsFunded now s
    → vested s' now ≡ vested s now
    → vested_amount s' now ≡ vested_amount s now
same_amount now s s' m f e =
    vested_amount_unique s' now (vested_amount s now) (SameTerms-IsFunded now s s' m f)
      (e ∙ vested-eq s now f)

pub depleted_live : (k : StreamStatus) → is_depleted k ≡ true → ¬ (is_terminal k ≡ false)
unfolding is_terminal
depleted_live k h l = ground arith

check_pause-ok :
    (s : Stream)
    → check_pause s ≡ ok tt
    → (is_terminal s.status ≡ false) × (is_paused s.status ≡ false)
unfolding check_pause
check_pause-ok s e = ground arith

check_resume-ok :
    (s : Stream) (p : ℕ)
    → check_resume s ≡ ok p
    → (is_terminal s.status ≡ false) × (s.paused_at ≡ some p)
unfolding check_resume
check_resume-ok s p e = ground arith

not_paused :
    (o : Option ℕ) (k : StreamStatus) → is_some o ≡ is_paused k → is_paused k ≡ false → o ≡ none
not_paused none k h e = refl
not_paused (some p) k h e = cc

coherent_running :
    (o : Option ℕ) (k : StreamStatus) → o ≡ none → is_paused k ≡ false → is_some o ≡ is_paused k
coherent_running o k h e = ground arith

running_before : (o : Option ℕ) (now : ℕ) → o ≡ none → PauseBefore o now
running_before o now h = ground arith

frozen_fields :
    (s : Stream) (now : ℕ)
    → s.paused_at ≡ none
    → SameTerms now s (frozen s now)
      × (is_terminal (frozen s now).status ≡ false)
      × (is_some (frozen s now).paused_at ≡ is_paused (frozen s now).status)
      × PauseBefore (frozen s now).paused_at now
unfolding frozen is_terminal elapsed stream_time
frozen_fields s now h = (
  record {
    deposited = refl;
    withdrawn = refl;
    start_time = refl;
    end_time = refl;
    elapsed_same = ground arith;
  },
  refl,
  refl,
  omega arith,
)

thawed_fields :
    (s s' : Stream) (p now : ℕ)
    → s.paused_at ≡ some p
    → p ≤ now
    → thawed s p now ≡ ok s'
    → SameTerms now s s'
      × (is_terminal s'.status ≡ false)
      × (s'.paused_at ≡ none)
      × (is_paused s'.status ≡ false)
unfolding thawed is_terminal checked_add_u64 elapsed stream_time
thawed_fields s s' p now at h e = (
  record {
    deposited = ground arith;
    withdrawn = ground arith;
    start_time = ground arith;
    end_time = ground arith;
    elapsed_same = ground arith;
  },
  ground arith,
  ground arith,
  ground arith,
)

assigned_fields :
    (s : Stream) (r now : ℕ)
    → SameTerms now s (assigned s r)
      × (vested (assigned s r) now ≡ vested s now)
      × ((assigned s r).status ≡ s.status)
      × ((assigned s r).paused_at ≡ s.paused_at)
unfolding assigned vested cliff_reached elapsed duration stream_time
assigned_fields s r now = (
  record {
    deposited = refl;
    withdrawn = refl;
    start_time = refl;
    end_time = refl;
    elapsed_same = refl;
  },
  ground arith,
  refl,
  refl,
)

-- A change of the clock or of the status, between states that are not terminal, that leaves the
-- amounts alone.
live_change :
    (now : ℕ) (s s' : Stream)
    → SameTerms now s s'
    → vested s' now ≡ vested s now
    → is_terminal s.status ≡ false
    → is_terminal s'.status ≡ false
    → is_some s'.paused_at ≡ is_paused s'.status
    → PauseBefore s'.paused_at now
    → IsWellFormed now s
    → IsWellFormed now s'
live_change now s s' m e live live' coherent before i =
    let same = same_amount now s s' m i.funded e in
    record {
      funded = SameTerms-IsFunded now s s' m i.funded;
      withdrawn_nonneg = simp m.withdrawn i.withdrawn_nonneg;
      covered = simp m.withdrawn (omega (arith, i.covered, same));
      pause_coherent = coherent;
      pause_before = before;
      ordered = simp (m.start_time, m.end_time) i.ordered;
      running = λ _. simp (m.start_time, m.end_time) (i.running live);
      settled = λ h. cc (h, live');
      drained = λ h. absurd (depleted_live s'.status h live');
    }

-- Pausing a well-formed stream that passes the checks of `pause` leaves it well-formed at that
-- instant.
pub frozen-IsWellFormed :
    (now : ℕ) (s : Stream)
    → check_pause s ≡ ok tt
    → IsWellFormed now s
    → IsWellFormed now (frozen s now)
frozen-IsWellFormed now s e i =
    let (live, running) = check_pause-ok s e in
    let unpaused = not_paused s.paused_at s.status i.pause_coherent running in
    let (m, live', coherent, before) = frozen_fields s now unpaused in
    live_change now s (frozen s now) m (vested-frozen s now unpaused) live live' coherent before i

pub thawed-IsWellFormed :
    (now p : ℕ) (s s' : Stream)
    → check_resume s ≡ ok p
    → thawed s p now ≡ ok s'
    → IsWellFormed now s
    → IsWellFormed now s'
thawed-IsWellFormed now p s s' e thaw i =
    let (live, at) = check_resume-ok s p e in
    let began = pause_began s.paused_at p now at i.pause_before in
    let (m, live', unpaused, paused') = thawed_fields s s' p now at began thaw in
    live_change now s s' m (vested-thawed s s' p now at began thaw) live live'
      (coherent_running s'.paused_at s'.status unpaused paused')
      (running_before s'.paused_at now unpaused) i

pub assigned-IsWellFormed :
    (now : ℕ) (s : Stream) (new_recipient : Address)
    → IsWellFormed now s
    → IsWellFormed now (assigned s new_recipient)
assigned-IsWellFormed now s r i =
    let (m, e, status, pause) = assigned_fields s r now in
    let same = same_amount now s (assigned s r) m i.funded e in
    record {
      funded = SameTerms-IsFunded now s (assigned s r) m i.funded;
      withdrawn_nonneg = simp m.withdrawn i.withdrawn_nonneg;
      covered = simp m.withdrawn (omega (arith, i.covered, same));
      pause_coherent = simp (pause, status) i.pause_coherent;
      pause_before = simp pause i.pause_before;
      ordered = simp (m.start_time, m.end_time) i.ordered;
      running = simp (m.start_time, m.end_time, status) i.running;
      settled = simp (m.deposited, status, same) i.settled;
      drained = simp (m.deposited, m.withdrawn, status) i.drained;
    }
