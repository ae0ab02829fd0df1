-- ===== src/Accrual.antt =====
-- The accrual arithmetic (contracts/stream/src/accrual.rs): pure functions of a stream and of the
-- ledger's time. Times are `u64` numbers, amounts are `i128` integers. Where the source divides or
-- multiplies without a check, the operations are those of the integers.
pub mod Curves
pub mod Bounds
pub mod FrontLoaded
use fluxora_contracts.Base.{
  ℕ, ◌+◌, ◌-◌, ◌*◌, ◌/◌, ℤ, pos, ◌+ℤ◌, ◌-ℤ◌, ◌*ℤ◌, ◌/ℤ◌, ◌%ℤ◌, ltb_ℤ, leb, ltb, ◌==◌, Option, none,
  some, Bool, if◌then◌else◌, checked_mul, checked_div, checked_sub, div_ceil,
}
use fluxora_contracts.Errors.{Result, ok, ◌>>=◌, ok_or, overflow}
use fluxora_contracts.Types.{
  Stream, CliffMode, schedule, wall_clock, ReleaseCurve, linear, step, front_loaded,
}

abbrev frozen_at : Option ℕ → ℕ → ℕ
frozen_at (some paused_at) now = paused_at
frozen_at none now = now

unfoldable pub stream_time : Stream → ℕ → ℕ
stream_time s now = frozen_at s.paused_at now - s.paused_total

unfoldable pub duration : Stream → ℕ
duration s = s.end_time - s.start_time

unfoldable pub elapsed : Stream → ℕ → ℕ
elapsed s now =
    let clock = stream_time s now in
    (if ltb s.end_time clock then s.end_time else clock) - s.start_time

abbrev cliff_gate : CliffMode → Stream → ℕ → Bool
cliff_gate schedule s now = leb s.cliff_time (stream_time s now)
cliff_gate wall_clock s now = leb s.cliff_time now

unfoldable pub cliff_reached : Stream → ℕ → Bool
cliff_reached s now = cliff_gate s.cliff_mode s now

unfoldable pub vested_linear : ℤ → ℕ → ℕ → Result ℤ
vested_linear deposited consumed total_duration = do
  numerator ← ok_or (checked_mul deposited (pos consumed)) overflow
  raw ← ok_or (checked_div numerator (pos total_duration)) overflow
  ok (if ltb_ℤ deposited raw then deposited else raw)

-- One round of the loop over the tranches.
abbrev count_tranche : ℕ → ℕ → ℕ → ℕ
count_tranche consumed total_duration k =
    if leb (div_ceil (total_duration * k) 4) consumed then 1 else 0

abbrev pub tranches : ℕ → ℕ → ℕ
tranches consumed total_duration =
    count_tranche consumed total_duration 1
    + count_tranche consumed total_duration 2
    + count_tranche consumed total_duration 3

unfoldable pub vested_step : ℤ → ℕ → ℕ → ℤ
vested_step deposited consumed total_duration =
    let opened = pos (tranches consumed total_duration) in
    let whole = deposited /ℤ pos 4 in
    let rem = deposited %ℤ pos 4 in whole *ℤ opened +ℤ rem *ℤ opened /ℤ pos 4

unfoldable pub vested_front_loaded : ℤ → ℕ → ℕ → ℤ
vested_front_loaded deposited consumed total_duration =
    let u = pos (consumed * 1000 / total_duration) in
    let curve = pos 2 *ℤ u -ℤ u *ℤ u /ℤ pos 1000 in
    let whole = deposited /ℤ pos 1000 in
    let rem = deposited %ℤ pos 1000 in whole *ℤ curve +ℤ rem *ℤ curve /ℤ pos 1000

unfoldable pub by_curve : ReleaseCurve → ℤ → ℕ → ℕ → Result ℤ
by_curve linear deposited consumed total = vested_linear deposited consumed total
by_curve step deposited consumed total = ok (vested_step deposited consumed total)
by_curve front_loaded deposited consumed total = ok (vested_front_loaded deposited consumed total)

unfoldable pub vested : Stream → ℕ → Result ℤ
vested s now =
    if cliff_reached s now
    then if duration s == 0
      then ok s.deposited
      else if leb (duration s) (elapsed s now)
      then ok s.deposited
      else by_curve s.curve s.deposited (elapsed s now) (duration s)
    else ok (pos 0)

unfoldable pub withdrawable : Stream → ℕ → Result ℤ
withdrawable s now = do
  earned ← vested s now
  available ← ok_or (checked_sub earned s.withdrawn) overflow
  ok (if ltb_ℤ available (pos 0) then pos 0 else available)

unfoldable pub refundable : Stream → ℕ → Result ℤ
refundable s now = do earned ← vested s now; ok_or (checked_sub s.deposited earned) overflow

unfoldable pub liability : Stream → Result ℤ
liability s = ok_or (checked_sub s.deposited s.withdrawn) overflow
