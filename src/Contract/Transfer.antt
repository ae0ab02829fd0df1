-- ===== src/Contract/Transfer.antt =====
-- `transfer_recipient`.
use fluxora_contracts.Base.{ℕ}
use fluxora_contracts.Types.{Address}
use fluxora_contracts.Host.{Env, Call, lift, require_auth, ◌>>=◌, ◌>>◌}
use fluxora_contracts.Storage.{load_stream, save_stream}
use fluxora_contracts.Publish.{recipient_transferred}
use fluxora_contracts.Transition.Transfer.{transfer_stream}
use fluxora_contracts.Contract.Guards.{require_not_halted}

module _ {L : Type 0} where
  unfoldable pub transfer_recipient : Env L → ℕ → Address → Call L Unit
  transfer_recipient e stream_id new_recipient = do
    require_not_halted
    s ← load_stream e stream_id
    require_auth e s.sender
    s' ← lift (transfer_stream s new_recipient e.now)
    save_stream e stream_id s'
    recipient_transferred stream_id s'.sender s.recipient new_recipient
