-- ===== src/Transition/Transfer.antt =====
-- `transfer_recipient` and `delegate_transfer_recipient`.
use fluxora_contracts.Base.{ℕ, leb_ℤ, ◌==◌, not, ◌||◌}
use fluxora_contracts.Errors.{
  Check, Result, ok, reject_if, ◌>>◌, not_transferable, stream_terminated, self_stream,
  repeated_transfer,
}
use fluxora_contracts.Types.{Address, Stream, is_depleted}
use fluxora_contracts.Transition.Pause.{check_monotone}

-- The checks that both forms make.
unfoldable pub check_transfer : Stream → Address → Check
check_transfer s new_recipient = do
  reject_if (not s.transferable) not_transferable
  reject_if (is_depleted s.status || leb_ℤ s.deposited s.withdrawn) stream_terminated
  reject_if (new_recipient == s.sender) self_stream
  reject_if (s.recipient == new_recipient) repeated_transfer

unfoldable pub assigned : Stream → Address → Stream
assigned s new_recipient = record s { recipient = new_recipient }

unfoldable pub transfer_stream : Stream → Address → ℕ → Result Stream
unfolding check_transfer assigned check_monotone
transfer_stream s new_recipient now = do
  check_transfer s new_recipient
  check_monotone s (assigned s new_recipient) now
  ok (assigned s new_recipient)

unfoldable pub delegate_transfer_stream : Stream → Address → Result Stream
unfolding check_transfer assigned
delegate_transfer_stream s new_recipient = do
  check_transfer s new_recipient
  ok (assigned s new_recipient)
