-- ===== src/Transition/Invariant/Steps.antt =====
-- Well-formedness of a stream under the pure parts of pause, resume and transfer, direct and delegated.
use fluxora_contracts.Base.{ℕ, ◌≡◌, subst, sym, arith, inl, inr}
use fluxora_contracts.Errors.{ok, Result-cases}
use fluxora_contracts.Types.{Address, Stream}
use fluxora_contracts.Transition.Pause.{
  check_pause, check_resume, frozen, thawed, pause_stream, resume_stream, delegate_pause_stream,
  delegate_resume_stream,
}
use fluxora_contracts.Transition.Transfer.{assigned, transfer_stream, delegate_transfer_stream}
use fluxora_contracts.Transition.Invariant.{IsWellFormed}
use fluxora_contracts.Transition.Invariant.Keeps.{
  frozen-IsWellFormed, thawed-IsWellFormed, assigned-IsWellFormed,
}

module _ (now : ℕ) (s : Stream) where
  pause_stream-frozen :
      {s' : Stream} → pause_stream s now ≡ ok s' → (check_pause s ≡ ok tt) × (s' ≡ frozen s now)
  unfolding pause_stream
  pause_stream-frozen e = elim (Result-cases (check_pause s)) [
    | inl (done, checks) ↦ (ground arith, ground arith)
    | inr bad ↦ absurd (ground arith)
  ]

  pub pause_stream-IsWellFormed :
      (s' : Stream) → pause_stream s now ≡ ok s' → IsWellFormed now s → IsWellFormed now s'
  pause_stream-IsWellFormed s' e i =
      let (checks, same) = pause_stream-frozen e in
      subst (IsWellFormed now) (sym same) (frozen-IsWellFormed now s checks i)

  delegate_pause_stream-frozen :
      {s' : Stream}
      → delegate_pause_stream s now ≡ ok s'
      → (check_pause s ≡ ok tt) × (s' ≡ frozen s now)
  unfolding delegate_pause_stream
  delegate_pause_stream-frozen e = elim (Result-cases (check_pause s)) [
    | inl (done, checks) ↦ (ground arith, ground arith)
    | inr bad ↦ absurd (ground arith)
  ]

  pub delegate_pause_stream-IsWellFormed :
      (s' : Stream) → delegate_pause_stream s now ≡ ok s' → IsWellFormed now s → IsWellFormed now s'
  delegate_pause_stream-IsWellFormed s' e i =
      let (checks, same) = delegate_pause_stream-frozen e in
      subst (IsWellFormed now) (sym same) (frozen-IsWellFormed now s checks i)

  resume_stream-thawed :
      {s' : Stream} {d : ℕ}
      → resume_stream s now ≡ ok (s', d)
      → (p : ℕ) × (check_resume s ≡ ok p) × (thawed s p now ≡ ok s')
  unfolding resume_stream
  resume_stream-thawed e = elim (Result-cases (check_resume s)) [
    | inl (p, checks) ↦ (p, checks, ground arith)
    | inr bad ↦ absurd (ground arith)
  ]

  delegate_resume_stream-thawed :
      {s' : Stream} {d : ℕ}
      → delegate_resume_stream s now ≡ ok (s', d)
      → (p : ℕ) × (check_resume s ≡ ok p) × (thawed s p now ≡ ok s')
  unfolding delegate_resume_stream
  delegate_resume_stream-thawed e = elim (Result-cases (check_resume s)) [
    | inl (p, checks) ↦ (p, checks, ground arith)
    | inr bad ↦ absurd (ground arith)
  ]

  pub resume_stream-IsWellFormed :
      (r : Stream × ℕ) → resume_stream s now ≡ ok r → IsWellFormed now s → IsWellFormed now r.0
  resume_stream-IsWellFormed (s', d) e i =
      let (p, checks, thaw) = resume_stream-thawed e in thawed-IsWellFormed now p s s' checks thaw i

  pub delegate_resume_stream-IsWellFormed :
      (r : Stream × ℕ)
      → delegate_resume_stream s now ≡ ok r
      → IsWellFormed now s
      → IsWellFormed now r.0
  delegate_resume_stream-IsWellFormed (s', d) e i =
      let (p, checks, thaw) = delegate_resume_stream-thawed e in
      thawed-IsWellFormed now p s s' checks thaw i

  transfer_stream-assigned :
      (r : Address) {s' : Stream} → transfer_stream s r now ≡ ok s' → s' ≡ assigned s r
  unfolding transfer_stream
  transfer_stream-assigned r e = ground arith

  delegate_transfer_stream-assigned :
      (r : Address) {s' : Stream} → delegate_transfer_stream s r ≡ ok s' → s' ≡ assigned s r
  unfolding delegate_transfer_stream
  delegate_transfer_stream-assigned r e = ground arith

  pub transfer_stream-IsWellFormed :
      (r : Address) (s' : Stream)
      → transfer_stream s r now ≡ ok s'
      → IsWellFormed now s
      → IsWellFormed now s'
  transfer_stream-IsWellFormed r s' e i =
      subst (IsWellFormed now) (sym (transfer_stream-assigned r e))
        (assigned-IsWellFormed now s r i)

  pub delegate_transfer_stream-IsWellFormed :
      (r : Address) (s' : Stream)
      → delegate_transfer_stream s r ≡ ok s'
      → IsWellFormed now s
      → IsWellFormed now s'
  delegate_transfer_stream-IsWellFormed r s' e i =
      subst (IsWellFormed now) (sym (delegate_transfer_stream-assigned r e))
        (assigned-IsWellFormed now s r i)
