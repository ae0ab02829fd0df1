-- ===== src/Contract/Keeps/Dust.antt =====
-- `reclaim_dust` on well-formed streams.
use fluxora_contracts.Base.{
  ℕ, ◌-◌, ℤ, pos, pos_part, ◌≡◌, ltb_ℤ, true, arith, inl, inr, Bool-cases, checked_sub_pos,
  i128_limit, ◌<◌, ◌≤◌,
}
use fluxora_contracts.Errors.{ok}
use fluxora_contracts.Types.{Stream, is_terminal}
use fluxora_contracts.Accrual.{liability}
use fluxora_contracts.Accrual.Bounds.{pos_of_nonneg}
use fluxora_contracts.Host.{Env, when}
use fluxora_contracts.Transition.Cancel.{dust}
use fluxora_contracts.Transition.Invariant.{IsWellFormed, vested_amount, vested_amount-le}
use fluxora_contracts.Transition.Withdraw.Keeps.{withdrawable-eq}
use fluxora_contracts.Contract.Triple.{Triple, Keeps, Triple-bind, Triple-pure, Keeps-skip}
use fluxora_contracts.Contract.Book.{require_auth-Keeps, forget_fact, with_fact}
use fluxora_contracts.Contract.Frame.{load_stream-finds}
use fluxora_contracts.Contract.Cancel.{pay_dust, reclaim_terminal, reclaim_dust}
use fluxora_contracts.Contract.Keeps.{AllWellFormed, lift-keeps}

owed-eq :
    (s : Stream) (d w : ℕ)
    → s.deposited ≡ pos d
    → s.withdrawn ≡ pos w
    → w ≤ d
    → d < i128_limit
    → liability s ≡ ok (pos (d - w))
unfolding liability
owed-eq s d w hd hw le l = ground (arith, checked_sub_pos d w le l)

-- A well-formed terminal stream has no dust: what `reclaim_dust` would pay its sender is exactly
-- zero.
pub dust-zero :
    (s : Stream) (now : ℕ)
    → IsWellFormed now s
    → is_terminal s.status ≡ true
    → dust s now ≡ ok (pos 0)
unfolding dust
dust-zero s now i h =
    let le = vested_amount-le s now in
    let full = i.settled h in
    let owed =
      owed-eq s (pos_part s.deposited) (pos_part s.withdrawn)
        (pos_of_nonneg s.deposited i.funded.nonneg) (pos_of_nonneg s.withdrawn i.withdrawn_nonneg)
        (omega (arith, i.covered, full)) i.funded.in_range in
    let claim = withdrawable-eq now s i in
    let rest =
      checked_sub_pos (pos_part s.deposited - pos_part s.withdrawn)
        (vested_amount s now - pos_part s.withdrawn) (omega (arith, full))
        (omega (arith, i.funded.in_range)) in
    ground (arith, owed, claim, rest, full)

module _ {L : Type 0} (e : Env L) where
  reclaim_terminal-Keeps :
      (i : ℕ) (s : Stream)
      → is_terminal s.status ≡ true
      → Triple
          (λ w. AllWellFormed e.now w × IsWellFormed e.now s)
          (reclaim_terminal e i s)
          (λ _. AllWellFormed e.now)
  unfolding reclaim_terminal
  reclaim_terminal-Keeps i s h =
      Triple-bind
        (lift-keeps e (dust s e.now) (λ a. a ≡ pos 0)
          (λ a eq f. ground (arith, dust-zero s e.now f h)))
        (λ a. Triple-bind (idle a) (λ _. Triple-pure a (λ w p. p)))
    where
      idle :
          (a : ℤ)
          → Triple
              (λ w. AllWellFormed e.now w × (a ≡ pos 0))
              (when (ltb_ℤ (pos 0) a) (pay_dust e i s a))
              (λ _. AllWellFormed e.now)
      idle a = elim (Bool-cases (ltb_ℤ (pos 0) a)) [
        | inl t ↦ record { holds = λ w b w' p eq. absurd (ground arith) }
        | inr f ↦ rw f (forget_fact (Keeps-skip _))
      ]

  pub reclaim_dust-Keeps : (i : ℕ) → Keeps (AllWellFormed e.now) (reclaim_dust e i)
  unfolding reclaim_dust
  reclaim_dust-Keeps i = Triple-bind (load_stream-finds e i) (λ s.
      Triple-bind (with_fact (require_auth-Keeps e s.sender)) (λ _.
        elim (Bool-cases (is_terminal s.status)) [
          | inl t ↦ rw t (reclaim_terminal-Keeps i s t)
          | inr f ↦ rw f (Triple-pure (pos 0) (λ w p. p.0))
        ]))
