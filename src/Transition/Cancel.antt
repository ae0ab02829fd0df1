-- ===== src/Transition/Cancel.antt =====
-- `quote_cancel`, the stream that `settle_cancel` saves, and the amount of `reclaim_dust`.
pub mod Settlement
use fluxora_contracts.Base.{ℕ, ℤ, leb, if◌then◌else◌, not, none, checked_sub}
use fluxora_contracts.Errors.{
  Result, ok, ok_or, reject_if, ◌>>=◌, ◌>>◌, not_cancellable, stream_terminated, overflow,
}
use fluxora_contracts.Types.{Stream, is_terminal, cancelled}
use fluxora_contracts.Accrual.{stream_time, vested, refundable, withdrawable, liability}

unfoldable pub quote_cancel : Stream → ℕ → Result (ℤ × ℤ)
quote_cancel s now = do
  reject_if (not s.cancellable) not_cancellable
  reject_if (is_terminal s.status) stream_terminated
  vested_now ← vested s now
  refund ← refundable s now
  ok (vested_now, refund)

-- The schedule collapses onto the current point of the stream clock, not before its start.
unfoldable pub settled : Stream → ℕ → ℤ → Stream
settled s now vested_now =
    let clock = stream_time s now in
    record s {
      deposited = vested_now;
      end_time = if leb clock s.start_time then s.start_time else clock;
      paused_at = none;
      status = cancelled;
    }

-- What of a terminal stream's liability its recipient cannot claim.
unfoldable pub dust : Stream → ℕ → Result ℤ
dust s now = do
  owed ← liability s
  recipient_claim ← withdrawable s now
  ok_or (checked_sub owed recipient_claim) overflow
