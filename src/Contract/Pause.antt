-- ===== src/Contract/Pause.antt =====
-- `pause` and `resume`.
use fluxora_contracts.Base.{ℕ}
use fluxora_contracts.Host.{Env, Call, lift, require_auth, ◌>>=◌, ◌>>◌}
use fluxora_contracts.Storage.{load_stream, save_stream}
use fluxora_contracts.Publish.{paused_event, resumed_event}
use fluxora_contracts.Transition.Pause.{pause_stream, resume_stream}
use fluxora_contracts.Contract.Guards.{require_not_halted}

module _ {L : Type 0} where
  unfoldable pub pause : Env L → ℕ → Call L Unit
  pause e stream_id = do
    require_not_halted
    s ← load_stream e stream_id
    require_auth e s.sender
    s' ← lift (pause_stream s e.now)
    save_stream e stream_id s'
    paused_event stream_id s' e.now

  unfoldable pub resume : Env L → ℕ → Call L Unit
  resume e stream_id = do
    require_not_halted
    s ← load_stream e stream_id
    require_auth e s.sender
    (s', paused_duration) ← lift (resume_stream s e.now)
    save_stream e stream_id s'
    resumed_event stream_id s' paused_duration
