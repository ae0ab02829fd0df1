-- ===== src/Contract/Withdraw.antt =====
-- `withdraw`, `batch_withdraw` and the `apply_withdrawal` that they share.
use fluxora_contracts.Base.{
  ℕ, ℤ, pos, ◌==◌, eqb_ℤ, not, if◌then◌else◌, Option, List, [], ◌∷◌, checked_add,
}
use fluxora_contracts.Errors.{unauthorized, overflow}
use fluxora_contracts.Types.{Address, Stream}
use fluxora_contracts.Accrual.{withdrawable}
use fluxora_contracts.Host.{Env, Call, pure, lift, ok_or, reject_if, require_auth, ◌>>=◌, ◌>>◌}
use fluxora_contracts.Storage.{load_stream, peek_stream, save_stream, extend_stream, debit_pool}
use fluxora_contracts.Publish.{withdrawn_event}
use fluxora_contracts.Transition.Withdraw.{choose_payout, drawn}
use fluxora_contracts.Contract.Guards.{
  contains, require_not_halted, validate_batch_ids, reject_duplicate_ids,
}
use fluxora_contracts.Contract.Payments.{token_transfer, verify_pool_balance}

-- A member of a batch, resolved and priced.
pub record Payout : Type 0 where
  pub stream_id : ℕ
  pub stream : Stream
  pub amount : ℤ

module _ {L : Type 0} where
  unfoldable pub apply_withdrawal : Env L → ℕ → Stream → ℤ → Call L Unit
  apply_withdrawal e stream_id s payout = do
    s' ← lift (drawn s payout e.now)
    debit_pool e s'.token payout
    save_stream e stream_id s'
    token_transfer e s'.token e.contract s'.recipient payout
    withdrawn_event stream_id s' payout

  unfoldable pub withdraw : Env L → ℕ → Option ℤ → Call L ℤ
  unfolding apply_withdrawal
  withdraw e stream_id amount = do
    require_not_halted
    s ← load_stream e stream_id
    require_auth e s.recipient
    payout ← lift (choose_payout s e.now amount)
    apply_withdrawal e stream_id s payout
    verify_pool_balance e s.token
    pure payout

  -- The first loop of `batch_withdraw`: resolve, check and price every member.
  unfoldable pub resolve_payouts : Env L → Address → ℤ → List ℕ → Call L (ℤ × List Payout)
  resolve_payouts e recipient total [] = pure (total, [])
  resolve_payouts e recipient total (stream_id ∷ ids) = do
    s ← peek_stream stream_id
    reject_if (not (s.recipient == recipient)) unauthorized
    available ← lift (withdrawable s e.now)
    total' ← ok_or (checked_add total available) overflow
    (sum, rest) ← resolve_payouts e recipient total' ids
    pure (sum, record { stream_id = stream_id; stream = s; amount = available } ∷ rest)

  unfoldable pub pay : Env L → Payout → Call L Unit
  unfolding apply_withdrawal
  pay e p =
      if eqb_ℤ p.amount (pos 0)
      then extend_stream e p.stream_id p.stream
      else apply_withdrawal e p.stream_id p.stream p.amount

  unfoldable pub pay_all : Env L → List Payout → Call L Unit
  unfolding pay
  pay_all e [] = pure tt
  pay_all e (p ∷ ps) = do pay e p; pay_all e ps

  -- Every token of the batch is reconciled once.
  unfoldable pub reconcile : Env L → List Address → List Payout → Call L Unit
  reconcile e done [] = pure tt
  reconcile e done (p ∷ ps) =
      let token = p.stream.token in
      let skip = reconcile e done ps in
      let check = verify_pool_balance e token >> reconcile e (token ∷ done) ps in
      if contains token done then skip else check

  unfoldable pub batch_withdraw : Env L → Address → List (Option ℕ) → Call L ℤ
  unfolding resolve_payouts pay_all reconcile
  batch_withdraw e recipient stream_ids = do
    require_not_halted
    ids ← validate_batch_ids stream_ids
    reject_duplicate_ids ids
    require_auth e recipient
    (total, payouts) ← resolve_payouts e recipient (pos 0) ids
    pay_all e payouts
    reconcile e [] payouts
    pure total
