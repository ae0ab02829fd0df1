-- ===== src/Transition/Withdraw.antt =====
-- The payout of `withdraw` and `delegate_withdraw`, and the stream that `apply_withdrawal` saves.
pub mod Payout
pub mod Keeps
use fluxora_contracts.Base.{
  ℕ, ◌-◌, ℤ, pos, ltb_ℤ, leb_ℤ, eqb_ℤ, if◌then◌else◌, Bool, not, ◌&&◌, Option, none, some,
  checked_add, checked_add_u64,
}
use fluxora_contracts.Errors.{
  Error, Result, ok, ok_or, reject_if, ◌>>=◌, ◌>>◌, stream_terminated, nothing_to_withdraw,
  invalid_amount, insufficient_withdrawable, overflow,
}
use fluxora_contracts.Types.{Stream, is_terminal, is_cancelled, depleted}
use fluxora_contracts.Accrual.{withdrawable}

abbrev requested_payout : Option ℤ → ℤ → Result ℤ
requested_payout none available = ok available
requested_payout (some requested) available = do
  reject_if (leb_ℤ requested (pos 0)) invalid_amount
  reject_if (ltb_ℤ available requested) insufficient_withdrawable
  ok requested

abbrev nothing_left : Bool → Error
nothing_left terminal = if terminal then stream_terminated else nothing_to_withdraw

unfoldable pub choose_payout : Stream → ℕ → Option ℤ → Result ℤ
choose_payout s now amount = do
  available ← withdrawable s now
  reject_if (eqb_ℤ available (pos 0)) (nothing_left (is_terminal s.status))
  requested_payout amount available

-- Depletion closes a pause that is still open.
abbrev close_pause : Stream → ℕ → Option ℕ → Result Stream
close_pause s now none = ok s
close_pause s now (some paused_at) = do
  total ← ok_or (checked_add_u64 s.paused_total (now - paused_at)) overflow
  ok (record s { paused_total = total; paused_at = none })

unfoldable pub drawn : Stream → ℤ → ℕ → Result Stream
drawn s payout now = do
  withdrawn ← ok_or (checked_add s.withdrawn payout) overflow
  let s' = record s { withdrawn = withdrawn }
  if leb_ℤ s'.deposited s'.withdrawn && not (is_cancelled s'.status)
      then close_pause (record s' { status = depleted }) now s'.paused_at
      else ok s'
