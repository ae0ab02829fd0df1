-- ===== src/Contract/Keeps/Delegated.antt =====
-- Well-formedness of all streams under the delegated entry points other than `delegate_top_up`.
use fluxora_contracts.Base.{ℕ, ℤ, ◌≡◌, Option}
use fluxora_contracts.Errors.{Result, ok}
use fluxora_contracts.Types.{Address, Stream}
use fluxora_contracts.Host.{Env, World, Call, lift, ◌>>=◌, ◌>>◌}
use fluxora_contracts.Storage.{load_stream}
use fluxora_contracts.Publish.{cancelled_event, paused_event, resumed_event, recipient_transferred}
use fluxora_contracts.Transition.Withdraw.{choose_payout}
use fluxora_contracts.Transition.Cancel.{quote_cancel, settled}
use fluxora_contracts.Transition.Pause.{delegate_pause_stream, delegate_resume_stream}
use fluxora_contracts.Transition.Transfer.{delegate_transfer_stream}
use fluxora_contracts.Transition.Invariant.{IsWellFormed}
use fluxora_contracts.Transition.Invariant.Steps.{
  delegate_pause_stream-IsWellFormed, delegate_resume_stream-IsWellFormed,
  delegate_transfer_stream-IsWellFormed,
}
use fluxora_contracts.Transition.Invariant.Pays.{settled-IsWellFormed}
use fluxora_contracts.Contract.Triple.{Triple, Keeps, Triple-bind, Triple-pure, Keeps-when}
use fluxora_contracts.Contract.Book.{
  publish-Keeps, require_not_halted-Keeps, check_delegate-Keeps, token_transfer-Keeps,
  verify_pool_balance-Keeps,
}
use fluxora_contracts.Contract.Frame.{KeepsAll, debit_pool-keeps}
use fluxora_contracts.Contract.Guards.{require_not_halted, check_delegate}
use fluxora_contracts.Types.{op_withdraw, op_cancel, op_pause, op_resume, op_transfer_recipient}
use fluxora_contracts.Contract.Delegates.{
  delegate_withdraw, delegate_refund, delegate_cancel, delegate_pause, delegate_resume,
  delegate_transfer_recipient,
}
use fluxora_contracts.Contract.Keeps.{
  AllWellFormed, lift-keeps, loaded, saved, apply_withdrawal-keeps, Chosen,
}

module _ {L : Type 0} (e : Env L) where
  -- What the delegated entry points begin with.
  permitted :
      {A B : Type 0} {Q : B → World L → Type 0} (i : ℕ) (d : Address) (op : ℕ)
      (r : Stream → Result A) (R : Stream → A → Type 0) {f : Stream → A → Call L B}
      → ((s : Stream) (x : A) → r s ≡ ok x → IsWellFormed e.now s → R s x)
      → ((s : Stream) (x : A) → Triple (λ w. AllWellFormed e.now w × R s x) (f s x) Q)
      → Triple
          (AllWellFormed e.now)
          (require_not_halted
            >> (check_delegate e i d op >> (load_stream e i >>= λ s. lift (r s) >>= f s)))
          Q
  permitted i d op r R h k = Triple-bind require_not_halted-Keeps (λ _.
      Triple-bind (check_delegate-Keeps e i d op)
        (λ _. loaded e i (λ s. Triple-bind (lift-keeps e (r s) (R s) (h s)) (k s))))

  pub delegate_pause-Keeps :
      (i : ℕ) (d : Address) → Keeps (AllWellFormed e.now) (delegate_pause e i d)
  unfolding delegate_pause paused_event
  delegate_pause-Keeps i d =
      permitted i d op_pause (λ s. delegate_pause_stream s e.now) (λ _. IsWellFormed e.now)
        (delegate_pause_stream-IsWellFormed e.now) (λ s s'. saved e i s' (publish-Keeps _))

  pub delegate_resume-Keeps :
      (i : ℕ) (d : Address) → Keeps (AllWellFormed e.now) (delegate_resume e i d)
  unfolding delegate_resume resumed_event
  delegate_resume-Keeps i d =
      permitted i d op_resume (λ s. delegate_resume_stream s e.now) (λ _ r. IsWellFormed e.now r.0)
        (delegate_resume_stream-IsWellFormed e.now) (λ s r. saved e i r.0 (publish-Keeps _))

  pub delegate_transfer_recipient-Keeps :
      (i : ℕ) (d r : Address) → Keeps (AllWellFormed e.now) (delegate_transfer_recipient e i d r)
  unfolding delegate_transfer_recipient recipient_transferred
  delegate_transfer_recipient-Keeps i d r =
      permitted i d op_transfer_recipient (λ s. delegate_transfer_stream s r)
        (λ _. IsWellFormed e.now) (λ s. delegate_transfer_stream-IsWellFormed e.now s r)
        (λ s s'. saved e i s' (publish-Keeps _))

  pub delegate_withdraw-Keeps :
      (i : ℕ) (d : Address) (amount : Option ℤ)
      → Keeps (AllWellFormed e.now) (delegate_withdraw e i d amount)
  unfolding delegate_withdraw
  delegate_withdraw-Keeps i d amount =
      permitted i d op_withdraw (λ s. choose_payout s e.now amount) (λ s. Chosen e s amount)
        (λ s payout eq h. (h, eq))
        (λ s payout.
          Triple-bind (apply_withdrawal-keeps e i s amount payout)
            (λ _. Triple-bind (verify_pool_balance-Keeps e _) (λ _. Triple-pure payout (λ w p. p))))

  delegate_refund-keeps :
      (s : Stream) (refund : ℤ) → KeepsAll {L = L} (IsWellFormed e.now) (delegate_refund e s refund)
  unfolding delegate_refund
  delegate_refund-keeps s refund =
      Triple-bind (debit_pool-keeps e _ refund) (λ _. token_transfer-Keeps e _ _ _ refund)

  pub delegate_cancel-Keeps :
      (i : ℕ) (d : Address) → Keeps (AllWellFormed e.now) (delegate_cancel e i d)
  unfolding delegate_cancel cancelled_event
  delegate_cancel-Keeps i d =
      permitted i d op_cancel (λ s. quote_cancel s e.now)
        (λ s q. IsWellFormed e.now (settled s e.now q.0))
        (λ s q eq h. settled-IsWellFormed e.now s eq h)
        (λ s q. saved e i (settled s e.now q.0) (
          Triple-bind (Keeps-when _ (delegate_refund-keeps (settled s e.now q.0) q.1))
            (λ _. Triple-bind (verify_pool_balance-Keeps e _) (λ _. publish-Keeps _))))
