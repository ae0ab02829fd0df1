-- ===== src/Contract/Pool/Delegated.antt =====
-- The pools under the delegated entry points other than `delegate_top_up`.
use fluxora_contracts.Base.{ℕ, ◌≡◌, ℤ, Option}
use fluxora_contracts.Errors.{Result, ok}
use fluxora_contracts.Types.{
  Address, Stream, op_withdraw, op_cancel, op_pause, op_resume, op_transfer_recipient,
}
use fluxora_contracts.Host.{Env, Call, lift, ◌>>=◌, ◌>>◌}
use fluxora_contracts.Storage.{load_stream}
use fluxora_contracts.Publish.{paused_event, resumed_event, recipient_transferred}
use fluxora_contracts.Transition.Withdraw.{choose_payout}
use fluxora_contracts.Transition.Cancel.{quote_cancel}
use fluxora_contracts.Transition.Pause.{delegate_pause_stream, delegate_resume_stream}
use fluxora_contracts.Transition.Transfer.{delegate_transfer_stream}
use fluxora_contracts.Transition.Invariant.{IsWellFormed}
use fluxora_contracts.Contract.Triple.{Triple, Triple-bind, Triple-pure}
use fluxora_contracts.Contract.Book.{
  Over, verify_pool_balance-Keeps, publish-Keeps, require_not_halted-Keeps, check_delegate-Keeps,
}
use fluxora_contracts.Contract.Guards.{require_not_halted, check_delegate}
use fluxora_contracts.Contract.Cancel.{settle_cancel, pay_refund}
use fluxora_contracts.Contract.Delegates.{
  delegate_withdraw, delegate_cancel, delegate_refund, delegate_pause, delegate_resume,
  delegate_transfer_recipient,
}
use fluxora_contracts.Contract.Keeps.{lift-keeps, Chosen}
use fluxora_contracts.Contract.Pool.Moves.{
  Moves, delegate_pause_stream-Moves, delegate_resume_stream-Moves, delegate_transfer_stream-Moves,
}
use fluxora_contracts.Contract.Pool.Settles.{
  Agreed, Held, apply_withdrawal-agrees, settle_cancel-agrees,
}
use fluxora_contracts.Contract.Pool.Keeps.{Any, Any-spared, Settles, loaded, kept}

module _ {L : Type 0} (e : Env L) where
  -- What the delegated entry points begin with.
  permitted :
      {A B : Type 0} (i : ℕ) (d : Address) (op : ℕ) (r : Stream → Result A)
      (R : Stream → A → Type 0) {f : Stream → A → Call L B}
      → ((s : Stream) (x : A) → r s ≡ ok x → IsWellFormed e.now s → R s x)
      → ((s : Stream) (x : A)
          → Triple (λ w. Over (Held i s 0 0 Any) w × R s x) (f s x) (λ _. Over (Agreed Any)))
      → Settles e (
          require_not_halted
          >> (check_delegate e i d op >> (load_stream e i >>= λ s. lift (r s) >>= f s)))
  permitted i d op r R h k = Triple-bind require_not_halted-Keeps (λ _.
      Triple-bind (check_delegate-Keeps e i d op)
        (λ _. loaded e i (λ s. Triple-bind (lift-keeps e (r s) (R s) (h s)) (k s))))

  pub delegate_pause-Settles : (i : ℕ) (d : Address) → Settles e (delegate_pause e i d)
  unfolding delegate_pause paused_event
  delegate_pause-Settles i d =
      permitted i d op_pause (λ s. delegate_pause_stream s e.now) (λ s s'. Moves s s' 0 0)
        (λ s s' eq h. delegate_pause_stream-Moves e.now s s' eq)
        (λ s s'. kept e i s s' (publish-Keeps _))

  pub delegate_resume-Settles : (i : ℕ) (d : Address) → Settles e (delegate_resume e i d)
  unfolding delegate_resume resumed_event
  delegate_resume-Settles i d =
      permitted i d op_resume (λ s. delegate_resume_stream s e.now) (λ s r. Moves s r.0 0 0)
        (λ s r eq h. delegate_resume_stream-Moves e.now s r eq)
        (λ s r. kept e i s r.0 (publish-Keeps _))

  pub delegate_transfer_recipient-Settles :
      (i : ℕ) (d a : Address) → Settles e (delegate_transfer_recipient e i d a)
  unfolding delegate_transfer_recipient recipient_transferred
  delegate_transfer_recipient-Settles i d a =
      permitted i d op_transfer_recipient (λ s. delegate_transfer_stream s a)
        (λ s s'. Moves s s' 0 0) (λ s s' eq h. delegate_transfer_stream-Moves e.now s a s' eq)
        (λ s s'. kept e i s s' (publish-Keeps _))

  pub delegate_withdraw-Settles :
      (i : ℕ) (d : Address) (amount : Option ℤ) → Settles e (delegate_withdraw e i d amount)
  unfolding delegate_withdraw
  delegate_withdraw-Settles i d amount =
      permitted i d op_withdraw (λ s. choose_payout s e.now amount) (λ s. Chosen e s amount)
        (λ s payout eq h. (h, eq))
        (λ s payout.
          Triple-bind (apply_withdrawal-agrees e i s (Any-spared i) amount payout)
            (λ _. Triple-bind (verify_pool_balance-Keeps e _) (λ _. Triple-pure payout (λ w p. p))))

  pub delegate_cancel-Settles : (i : ℕ) (d : Address) → Settles e (delegate_cancel e i d)
  unfolding delegate_cancel delegate_refund settle_cancel pay_refund
  delegate_cancel-Settles i d =
      permitted i d op_cancel (λ s. quote_cancel s e.now)
        (λ s q. IsWellFormed e.now s × (quote_cancel s e.now ≡ ok q)) (λ s q eq h. (h, eq))
        (λ s q. settle_cancel-agrees e i s (Any-spared i) q.0 q.1)
