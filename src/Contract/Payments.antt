-- ===== src/Contract/Payments.antt =====
-- The calls on the token contracts, with the record of what the pool should hold.
use fluxora_contracts.Base.{ℤ, ltb_ℤ, eqb_ℤ, not, checked_sub}
use fluxora_contracts.Errors.{
  ok, err, overflow, token_transfer_failed, token_missing, token_amount_mismatch,
  pool_balance_drift,
}
use fluxora_contracts.Types.{Address}
use fluxora_contracts.Host.{
  Env, Call, TransferReply, ok_ok, ok_err, err_ok, err_contract, err_abort, gets, ok_or, unwrap,
  reject_if, ◌>>=◌, ◌>>◌,
}
use fluxora_contracts.Storage.{pooled_balance, credit_pool}

module _ {L : Type 0} where
  abbrev pub transfer_result : TransferReply L → Call L Unit
  transfer_result (ok_ok ledger) w = ok (tt, record w { ledger = ledger })
  transfer_result err_contract w = err token_transfer_failed
  transfer_result ok_err w = err token_transfer_failed
  transfer_result err_ok w = err token_transfer_failed
  transfer_result err_abort w = err token_missing

  unfoldable pub token_transfer : Env L → Address → Address → Address → ℤ → Call L Unit
  token_transfer e token from to amount w =
      transfer_result (e.token.try_transfer w.ledger token from to amount) w

  unfoldable pub balance_of : Env L → Address → Address → Call L ℤ
  balance_of e token owner = do
    answer ← gets (λ w. e.token.balance w.ledger token owner)
    unwrap answer

  unfoldable pub pull_deposit : Env L → Address → Address → ℤ → Call L Unit
  unfolding balance_of
  pull_deposit e token from amount = do
    before ← balance_of e token e.contract
    token_transfer e token from e.contract amount
    after ← balance_of e token e.contract
    received ← ok_or (checked_sub after before) overflow
    reject_if (not (eqb_ℤ received amount)) token_amount_mismatch
    credit_pool e token amount

  unfoldable pub verify_pool_balance : Env L → Address → Call L Unit
  unfolding balance_of pooled_balance
  verify_pool_balance e token = do
    expected ← gets (λ w. pooled_balance w token)
    actual ← balance_of e token e.contract
    reject_if (ltb_ℤ actual expected) pool_balance_drift
