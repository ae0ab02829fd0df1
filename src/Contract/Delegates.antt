-- ===== src/Contract/Delegates.antt =====
-- Grants to delegates, and the entry points that a delegate calls.
pub mod Permission
use Prim.Native.Nat.{bit_and, bit_or}
use fluxora_contracts.Base.{ℕ, ℤ, pos, ltb_ℤ, ◌==◌, not, ◌&&◌, Bool, if◌then◌else◌, Option}
use fluxora_contracts.Errors.{stream_terminated, unauthorized}
use fluxora_contracts.Types.{
  Address, Stream, is_terminal, op_withdraw, op_cancel, op_pause, op_resume, op_top_up,
  op_transfer_recipient,
}
use fluxora_contracts.Host.{◌>>=◌, ◌>>◌, Env, Call, pure, lift, reject_if, when, require_auth}
use fluxora_contracts.Storage.{load_stream, save_stream, save_delegate, remove_delegate, debit_pool}
use fluxora_contracts.Publish.{
  delegate_granted, delegate_revoked, cancelled_event, paused_event, resumed_event, topped_up_event,
  recipient_transferred,
}
use fluxora_contracts.Transition.Withdraw.{choose_payout}
use fluxora_contracts.Transition.Cancel.{quote_cancel, settled}
use fluxora_contracts.Transition.Pause.{delegate_pause_stream, delegate_resume_stream}
use fluxora_contracts.Transition.TopUp.{delegate_topped_up}
use fluxora_contracts.Transition.Transfer.{delegate_transfer_stream}
use fluxora_contracts.Contract.Guards.{require_not_halted, check_delegate}
use fluxora_contracts.Contract.Payments.{token_transfer, pull_deposit, verify_pool_balance}
use fluxora_contracts.Contract.Withdraw.{apply_withdrawal}

abbrev pub sender_ops : ℕ
sender_ops = bit_or (bit_or (bit_or op_cancel op_pause) op_resume) op_top_up

abbrev pub recipient_ops : ℕ
recipient_ops = bit_or op_withdraw op_transfer_recipient

-- `ops & mask != 0`
abbrev pub has_any : ℕ → ℕ → Bool
has_any ops mask = not (bit_and ops mask == 0)

module _ {L : Type 0} where
  -- The party that owns the granted operations signs; the rest of a grant.
  unfoldable pub grant_from : Env L → ℕ → Address → Address → Address → ℕ → Option ℕ → Call L Unit
  grant_from e stream_id owner grantor delegate ops expires_at = do
    reject_if (not (grantor == owner)) unauthorized
    require_auth e grantor
    save_delegate e stream_id delegate (record { ops = ops; expires_at = expires_at })
    delegate_granted stream_id grantor delegate ops expires_at

  unfoldable pub grant_delegate : Env L → ℕ → Address → Address → ℕ → Option ℕ → Call L Unit
  unfolding grant_from
  grant_delegate e stream_id grantor delegate ops expires_at = do
    require_not_halted
    s ← load_stream e stream_id
    reject_if (is_terminal s.status) stream_terminated
    reject_if (has_any ops sender_ops && has_any ops recipient_ops) unauthorized
    if has_any ops sender_ops
        then grant_from e stream_id s.sender grantor delegate ops expires_at
        else if has_any ops recipient_ops
        then grant_from e stream_id s.recipient grantor delegate ops expires_at
        else pure tt

  unfoldable pub revoke_delegate : Env L → ℕ → Address → Address → Call L Unit
  revoke_delegate e stream_id grantor delegate = do
    require_not_halted
    s ← load_stream e stream_id
    reject_if (not (grantor == s.sender) && not (grantor == s.recipient)) unauthorized
    require_auth e grantor
    remove_delegate stream_id delegate
    delegate_revoked stream_id grantor delegate

  unfoldable pub delegate_withdraw : Env L → ℕ → Address → Option ℤ → Call L ℤ
  delegate_withdraw e stream_id delegate amount = do
    require_not_halted
    check_delegate e stream_id delegate op_withdraw
    s ← load_stream e stream_id
    payout ← lift (choose_payout s e.now amount)
    apply_withdrawal e stream_id s payout
    verify_pool_balance e s.token
    pure payout

  -- The delegated refund, written out in the source.
  unfoldable pub delegate_refund : Env L → Stream → ℤ → Call L Unit
  delegate_refund e s refund = do
    debit_pool e s.token refund
    token_transfer e s.token e.contract s.sender refund

  unfoldable pub delegate_cancel : Env L → ℕ → Address → Call L Unit
  unfolding delegate_refund
  delegate_cancel e stream_id delegate = do
    require_not_halted
    check_delegate e stream_id delegate op_cancel
    s ← load_stream e stream_id
    (vested_now, refund) ← lift (quote_cancel s e.now)
    let s' = settled s e.now vested_now
    save_stream e stream_id s'
    when (ltb_ℤ (pos 0) refund) (delegate_refund e s' refund)
    verify_pool_balance e s'.token
    cancelled_event stream_id s' refund

  unfoldable pub delegate_pause : Env L → ℕ → Address → Call L Unit
  delegate_pause e stream_id delegate = do
    require_not_halted
    check_delegate e stream_id delegate op_pause
    s ← load_stream e stream_id
    s' ← lift (delegate_pause_stream s e.now)
    save_stream e stream_id s'
    paused_event stream_id s' e.now

  unfoldable pub delegate_resume : Env L → ℕ → Address → Call L Unit
  delegate_resume e stream_id delegate = do
    require_not_halted
    check_delegate e stream_id delegate op_resume
    s ← load_stream e stream_id
    (s', paused_duration) ← lift (delegate_resume_stream s e.now)
    save_stream e stream_id s'
    resumed_event stream_id s' paused_duration

  unfoldable pub delegate_top_up : Env L → ℕ → Address → ℤ → Call L Unit
  delegate_top_up e stream_id delegate amount = do
    require_not_halted
    check_delegate e stream_id delegate op_top_up
    s ← load_stream e stream_id
    s' ← lift (delegate_topped_up s amount e.now)
    save_stream e stream_id s'
    require_auth e s'.sender
    pull_deposit e s'.token s'.sender amount
    verify_pool_balance e s'.token
    topped_up_event stream_id s' amount

  unfoldable pub delegate_transfer_recipient : Env L → ℕ → Address → Address → Call L Unit
  delegate_transfer_recipient e stream_id delegate new_recipient = do
    require_not_halted
    check_delegate e stream_id delegate op_transfer_recipient
    s ← load_stream e stream_id
    s' ← lift (delegate_transfer_stream s new_recipient)
    save_stream e stream_id s'
    recipient_transferred stream_id s'.sender s.recipient new_recipient
