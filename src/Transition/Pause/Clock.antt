-- ===== src/Transition/Pause/Clock.antt =====
-- The stream clock under `pause` and `resume`.
use fluxora_contracts.Base.{
  ℕ, ◌+◌, ◌-◌, ◌≤◌, ◌≡◌, refl, sym, subst, checked_add_u64, Option, none, some, inl, inr, arith,
  Option-cases,
}
use fluxora_contracts.Errors.{Result-cases, ok}
use fluxora_contracts.Types.{Stream, schedule}
use fluxora_contracts.Accrual.{stream_time, duration, elapsed, cliff_reached, vested}
use fluxora_contracts.Accrual.Bounds.{IsFunded, PauseBefore, vested_bounds}
use fluxora_contracts.Transition.Pause.{
  frozen, pause_stream, delegate_pause_stream, check_resume, thawed, resume_stream,
  delegate_resume_stream,
}

-- A paused clock stands still: at every later instant it reads what it read at the pause.
stream_time-frozen : (s : Stream) (now t : ℕ) → stream_time (frozen s now) t ≡ now - s.paused_total
unfolding stream_time frozen
stream_time-frozen s now t = refl

-- Pausing a running stream changes nothing at that instant.
pub vested-frozen :
    (s : Stream) (now : ℕ) → s.paused_at ≡ none → vested (frozen s now) now ≡ vested s now
unfolding vested cliff_reached elapsed duration stream_time frozen
vested-frozen s now h = ground arith

pub vested-thawed :
    (s s' : Stream) (p now : ℕ)
    → s.paused_at ≡ some p
    → p ≤ now
    → thawed s p now ≡ ok s'
    → vested s' now ≡ vested s now
unfolding vested cliff_reached elapsed duration stream_time thawed checked_add_u64
vested-thawed s s' p now h l e = ground arith

-- What a successful pause is: the frozen stream.
pub pause_stream-eq :
    (s : Stream) (now : ℕ) {s' : Stream} → pause_stream s now ≡ ok s' → s' ≡ frozen s now
unfolding pause_stream
pause_stream-eq s now e = ground arith

-- What a successful resumption is, with the duration of the pause.
pub resume_stream-eq :
    (s : Stream) (now : ℕ) {s' : Stream} {d : ℕ}
    → resume_stream s now ≡ ok (s', d)
    → (p : ℕ) × (s.paused_at ≡ some p) × (thawed s p now ≡ ok s') × (d ≡ now - p)
unfolding resume_stream check_resume
resume_stream-eq s now e = ground arith

frozen-paused_at : (s : Stream) (p : ℕ) {p' : ℕ} → (frozen s p).paused_at ≡ some p' → p' ≡ p
unfolding frozen
frozen-paused_at s p e = cc

vested-frozen_later :
    (s : Stream) (now t : ℕ)
    → s.cliff_mode ≡ schedule
    → s.paused_at ≡ none
    → vested (frozen s now) t ≡ vested s now
unfolding vested cliff_reached elapsed duration stream_time frozen
vested-frozen_later s now t m h = ground arith

vested-thawed_later :
    (s s' : Stream) (p q d : ℕ)
    → s.cliff_mode ≡ schedule
    → s.paused_at ≡ none
    → p ≤ q
    → thawed (frozen s p) p q ≡ ok s'
    → vested s' (q + d) ≡ vested s (p + d)
unfolding vested cliff_reached elapsed duration stream_time thawed checked_add_u64 frozen
vested-thawed_later s s' p q d m h l e = ground arith

pub pause_began : (o : Option ℕ) (p now : ℕ) → o ≡ some p → PauseBefore o now → p ≤ now
pause_began o p now e h = ground arith

-- For a stream with a schedule cliff that is not paused, a pause that succeeds leaves a stream that
-- has vested, at every instant, exactly what the stream before had vested at the pause.
pub pause_freezes :
    (s : Stream) (now t : ℕ) {s' : Stream}
    → s.cliff_mode ≡ schedule
    → s.paused_at ≡ none
    → pause_stream s now ≡ ok s'
    → vested s' t ≡ vested s now
pause_freezes s now t m h e =
    subst (λ (r : Stream). vested r t ≡ vested s now) (sym (pause_stream-eq s now e))
      (vested-frozen_later s now t m h)

-- For a stream with a schedule cliff that is not paused, a pause at `p` and a resumption at `q`,
-- not earlier, that both succeed report a pause of `q - p` seconds, and the resumed stream has
-- vested at `q + d` exactly what the stream before would have at `p + d`.
pub pause_resume_shifts :
    (s : Stream) (p q d : ℕ) {s₁ s₂ : Stream} {paused_duration : ℕ}
    → s.cliff_mode ≡ schedule
    → s.paused_at ≡ none
    → p ≤ q
    → pause_stream s p ≡ ok s₁
    → resume_stream s₁ q ≡ ok (s₂, paused_duration)
    → (paused_duration ≡ q - p) × (vested s₂ (q + d) ≡ vested s (p + d))
pause_resume_shifts s p q d {s₂} {paused_duration} m h l e f =
    let (p', at, thaw, dur) = resume_stream-eq (frozen s p) q {s' = s₂} {d = paused_duration} (
      subst (λ (r : Stream). resume_stream r q ≡ ok (s₂, paused_duration)) (pause_stream-eq s p e)
        f) in
    let same : p' ≡ p = frozen-paused_at s p at in
    (
      cc (dur, same),
      vested-thawed_later s s₂ p q d m h l
          (subst (λ (r : ℕ). thawed (frozen s p) r q ≡ ok s₂) same thaw),
    )

-- On a funded stream without a recorded pause `pause` and `delegate_pause` compute the same result:
-- the guard against a decrease, which only `pause` has, never fires there.
pub pause-eq-delegate_pause :
    (s : Stream) (now : ℕ)
    → IsFunded now s
    → s.paused_at ≡ none
    → pause_stream s now ≡ delegate_pause_stream s now
unfolding pause_stream delegate_pause_stream
pause-eq-delegate_pause s now f h =
    let (v, e, le) = vested_bounds s now f in ground (arith, vested-frozen s now h)

-- On a funded stream whose recorded pause, if any, began no later than now, `resume` and
-- `delegate_resume` compute the same result: the guard against a decrease, which only `resume` has,
-- never fires there.
pub resume-eq-delegate_resume :
    (s : Stream) (now : ℕ)
    → IsFunded now s
    → PauseBefore s.paused_at now
    → resume_stream s now ≡ delegate_resume_stream s now
unfolding resume_stream delegate_resume_stream check_resume
resume-eq-delegate_resume s now f h =
    let (v, e, le) = vested_bounds s now f in
    elim (Option-cases s.paused_at) [
      | inl running ↦ ground arith
      | inr (p, at) ↦ elim (Result-cases (thawed s p now)) [
        | inl (s', thaw) ↦
            ground (arith, vested-thawed s s' p now at (pause_began s.paused_at p now at h) thaw)
        | inr failed ↦ ground arith
      ]
    ]
