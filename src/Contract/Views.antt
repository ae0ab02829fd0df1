-- ===== src/Contract/Views.antt =====
-- The read-only entry points.
use fluxora_contracts.Base.{ℕ, ℤ, Bool, false}
use fluxora_contracts.Types.{Stream}
use fluxora_contracts.Accrual.{withdrawable, vested, refundable}
use fluxora_contracts.Host.{Env, Call, lift, ◌>>=◌}
use fluxora_contracts.Storage.{peek_stream}

abbrev pub upgradeable : Bool
upgradeable = false

module _ {L : Type 0} where
  unfoldable pub get_stream : ℕ → Call L Stream
  get_stream stream_id = peek_stream stream_id

  unfoldable pub withdrawable_of : Env L → ℕ → Call L ℤ
  withdrawable_of e stream_id = do s ← peek_stream stream_id; lift (withdrawable s e.now)

  unfoldable pub vested_of : Env L → ℕ → Call L ℤ
  vested_of e stream_id = do s ← peek_stream stream_id; lift (vested s e.now)

  unfoldable pub refundable_of : Env L → ℕ → Call L ℤ
  refundable_of e stream_id = do s ← peek_stream stream_id; lift (refundable s e.now)
