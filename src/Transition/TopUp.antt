-- ===== src/Transition/TopUp.antt =====
-- `top_up`, `top_up_duration_delta` and `delegate_top_up`, up to the token call.
pub mod Growth
pub mod Vesting
pub mod Delegated
use fluxora_contracts.Base.{
  ℕ, ℤ, pos, leb, ltb_ℤ, leb_ℤ, eqb_ℤ, ◌||◌, checked_add, checked_mul, checked_div, checked_add_u64,
  checked_sub_u64, as_u64, u64_max,
}
use fluxora_contracts.Errors.{
  Check, Result, ok, ok_or, reject_if, ◌>>=◌, ◌>>◌, stream_terminated, invalid_amount,
  stream_matured, overflow, top_up_too_small, deposit_rate_too_low, vested_decreased,
}
use fluxora_contracts.Types.{Stream, is_terminal, ReleaseCurve, linear, step, front_loaded}
use fluxora_contracts.Accrual.{stream_time, duration, vested}

-- The seconds that a top-up buys at the stream's rate, rounded down.
unfoldable pub linear_delta : Stream → ℤ → ℤ → Result ℤ
linear_delta s amount current_duration = do
  scaled ← ok_or (checked_mul amount current_duration) overflow
  delta ← ok_or (checked_div scaled s.deposited) overflow
  reject_if (ltb_ℤ delta (pos 0) || ltb_ℤ (pos u64_max) delta) overflow
  reject_if (eqb_ℤ delta (pos 0)) top_up_too_small
  ok delta

abbrev pub delta_by_curve : ReleaseCurve → Stream → ℤ → ℤ → Result ℤ
delta_by_curve linear s amount current_duration = linear_delta s amount current_duration
delta_by_curve step s amount current_duration = ok (pos 0)
delta_by_curve front_loaded s amount current_duration = ok (pos 0)

unfoldable pub top_up_duration_delta : Stream → ℤ → ℤ → Result ℤ
top_up_duration_delta s amount current_duration = delta_by_curve s.curve s amount current_duration

-- The stream with the new deposit and end, after the guards of creation.
unfoldable pub grown : Stream → ℤ → ℤ → Result Stream
grown s amount delta = do
  new_deposited ← ok_or (checked_add s.deposited amount) overflow
  new_end ← ok_or (checked_add_u64 s.end_time (as_u64 delta)) overflow
  new_duration ← ok_or (checked_sub_u64 new_end s.start_time) overflow
  product ← ok_or (checked_mul new_deposited (pos new_duration)) overflow
  reject_if (ltb_ℤ new_deposited (pos new_duration)) deposit_rate_too_low
  ok (record s { deposited = new_deposited; end_time = new_end })

unfoldable pub check_top_up : Stream → ℤ → ℕ → Check
check_top_up s amount now = do
  reject_if (is_terminal s.status) stream_terminated
  reject_if (leb_ℤ amount (pos 0)) invalid_amount
  reject_if (leb s.end_time (stream_time s now)) stream_matured

unfoldable pub topped_up : Stream → ℤ → ℕ → Result Stream
topped_up s amount now = do
  check_top_up s amount now
  delta ← top_up_duration_delta s amount (pos (duration s))
  s' ← grown s amount delta
  old_vested ← vested s now
  new_vested ← vested s' now
  reject_if (ltb_ℤ new_vested old_vested) vested_decreased
  ok s'

-- The delegated form takes the linear delta for every curve, and does not compare what has vested.
unfoldable pub delegate_topped_up : Stream → ℤ → ℕ → Result Stream
delegate_topped_up s amount now = do
  check_top_up s amount now
  delta ← linear_delta s amount (pos (duration s))
  grown s amount delta
