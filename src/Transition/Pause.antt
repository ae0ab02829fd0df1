-- ===== src/Transition/Pause.antt =====
-- `pause`, `resume` and their delegated forms.
pub mod Clock
use fluxora_contracts.Base.{ℕ, ◌-◌, ltb_ℤ, not, none, some, checked_add_u64}
use fluxora_contracts.Errors.{
  Check, Result, ok, ok_or, reject_if, ◌>>=◌, ◌>>◌, not_pausable, stream_terminated,
  stream_already_paused, stream_not_paused, overflow, vested_decreased,
}
use fluxora_contracts.Types.{Stream, is_terminal, is_paused, paused, active}
use fluxora_contracts.Accrual.{vested}

-- The checks of `pause` and of `delegate_pause`.
unfoldable pub check_pause : Stream → Check
check_pause s = do
  reject_if (not s.pausable) not_pausable
  reject_if (is_terminal s.status) stream_terminated
  reject_if (is_paused s.status) stream_already_paused

unfoldable pub frozen : Stream → ℕ → Stream
frozen s now = record s { paused_at = some now; status = paused }

-- Refuses a change after which less has vested.
unfoldable pub check_monotone : Stream → Stream → ℕ → Check
check_monotone s s' now = do
  old_vested ← vested s now
  new_vested ← vested s' now
  reject_if (ltb_ℤ new_vested old_vested) vested_decreased

unfoldable pub pause_stream : Stream → ℕ → Result Stream
unfolding check_pause frozen check_monotone
pause_stream s now = do check_pause s; check_monotone s (frozen s now) now; ok (frozen s now)

unfoldable pub delegate_pause_stream : Stream → ℕ → Result Stream
unfolding check_pause frozen
delegate_pause_stream s now = do check_pause s; ok (frozen s now)

-- The checks of `resume` and of `delegate_resume`: when the open pause began.
unfoldable pub check_resume : Stream → Result ℕ
check_resume s = do
  reject_if (is_terminal s.status) stream_terminated
  paused_at ← ok_or s.paused_at stream_not_paused
  reject_if (not (is_paused s.status)) stream_not_paused
  ok paused_at

unfoldable pub thawed : Stream → ℕ → ℕ → Result Stream
thawed s paused_at now = do
  total ← ok_or (checked_add_u64 s.paused_total (now - paused_at)) overflow
  ok (record s { paused_total = total; paused_at = none; status = active })

unfoldable pub resume_stream : Stream → ℕ → Result (Stream × ℕ)
resume_stream s now = do
  paused_at ← check_resume s
  old_vested ← vested s now
  s' ← thawed s paused_at now
  new_vested ← vested s' now
  reject_if (ltb_ℤ new_vested old_vested) vested_decreased
  ok (s', now - paused_at)

unfoldable pub delegate_resume_stream : Stream → ℕ → Result (Stream × ℕ)
delegate_resume_stream s now = do
  paused_at ← check_resume s
  s' ← thawed s paused_at now
  ok (s', now - paused_at)
