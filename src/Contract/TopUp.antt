-- ===== src/Contract/TopUp.antt =====
-- `top_up`.
use fluxora_contracts.Base.{ℕ, ℤ}
use fluxora_contracts.Host.{Env, Call, lift, require_auth, ◌>>=◌, ◌>>◌}
use fluxora_contracts.Storage.{load_stream, save_stream}
use fluxora_contracts.Publish.{topped_up_event}
use fluxora_contracts.Transition.TopUp.{topped_up}
use fluxora_contracts.Contract.Guards.{require_not_halted}
use fluxora_contracts.Contract.Payments.{pull_deposit, verify_pool_balance}

module _ {L : Type 0} where
  unfoldable pub top_up : Env L → ℕ → ℤ → Call L Unit
  top_up e stream_id amount = do
    require_not_halted
    s ← load_stream e stream_id
    require_auth e s.sender
    s' ← lift (topped_up s amount e.now)
    pull_deposit e s'.token s'.sender amount
    verify_pool_balance e s'.token
    save_stream e stream_id s'
    topped_up_event stream_id s' amount
