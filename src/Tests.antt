-- ===== src/Tests.antt =====
-- A stream of 1000 over 100 seconds, and runs of the operations on it.
pub mod Streams
pub mod Calls
pub mod Factories
pub mod Dates
pub mod Manifests
pub mod Pools
use fluxora_contracts.Base.{
  ℕ, ◌+◌, ◌-◌, ◌*◌, ◌/◌, ◌≡◌, refl, pos, ◌+ℤ◌, ◌-ℤ◌, true, none, some, ◌/ℤ◌, checked_mul, checked,
  in_i128, ◌*ℤ◌, checked_add, checked_sub, checked_div, checked_add_u64, checked_sub_u64, as_u64,
}
use fluxora_contracts.Errors.{ok}
use fluxora_contracts.Types.{
  Stream, active, paused, schedule, ReleaseCurve, linear, step, is_terminal,
}
use fluxora_contracts.Accrual.{
  stream_time, duration, elapsed, cliff_reached, vested, withdrawable, refundable, vested_linear,
  by_curve,
}
use fluxora_contracts.Accrual.Bounds.{IsFunded}
use fluxora_contracts.Transition.Create.{StreamTerms, check_terms, new_stream}
use fluxora_contracts.Transition.TopUp.{
  linear_delta, top_up_duration_delta, grown, check_top_up, topped_up, delegate_topped_up,
}
use fluxora_contracts.Transition.Withdraw.{choose_payout, drawn}
use fluxora_contracts.Transition.Cancel.{quote_cancel}
use fluxora_contracts.Transition.Pause.{
  check_pause, check_resume, frozen, thawed, check_monotone, pause_stream, resume_stream,
}
use fluxora_contracts.Transition.Invariant.{IsWellFormed}
use fluxora_contracts.Transition.Invariant.Keeps.{new_stream-IsWellFormed}

abbrev pub terms : ReleaseCurve → StreamTerms
terms curve = record {
  recipient = 2;
  token = 3;
  deposit = pos 1000;
  start_time = 0;
  end_time = 100;
  cliff_time = 10;
  cliff_mode = schedule;
  cancellable = true;
  pausable = true;
  transferable = true;
  reference = none;
  curve = curve;
}

abbrev pub sample : ReleaseCurve → Stream
sample curve = record {
  sender = 1;
  recipient = 2;
  token = 3;
  deposited = pos 1000;
  withdrawn = pos 0;
  start_time = 0;
  end_time = 100;
  cliff_time = 10;
  cliff_mode = schedule;
  cancellable = true;
  pausable = true;
  transferable = true;
  paused_at = none;
  paused_total = 0;
  status = active;
  curve = curve;
  reference = none;
}

pub terms-ok : (k : ReleaseCurve) → check_terms 1 (terms k) ≡ ok tt
unfolding check_terms checked_mul checked in_i128 ◌*ℤ◌
terms-ok k = refl

pub sample_formed : (k : ReleaseCurve) (now : ℕ) → IsWellFormed now (sample k)
unfolding new_stream
sample_formed k now = new_stream-IsWellFormed 1 (terms k) now (terms-ok k)

pub sample-IsFunded : (k : ReleaseCurve) (now : ℕ) → IsFunded now (sample k)
sample-IsFunded k now = (sample_formed k now).funded

abbrev pub stopped : Stream
stopped = record (sample linear) { paused_at = some 40; status = paused }

pub vested_at_40 : vested (sample linear) 40 ≡ ok (pos 400)
unfolding vested withdrawable refundable cliff_reached stream_time duration elapsed by_curve
    vested_linear checked_mul checked in_i128 ◌*ℤ◌ ◌/ℤ◌ ◌-ℤ◌ ◌+ℤ◌ checked_div checked_sub
    checked_add checked_add_u64 checked_sub_u64 as_u64 is_terminal
vested_at_40 = refl

pub withdrawable_at_40 : withdrawable (sample linear) 40 ≡ ok (pos 400)
unfolding vested withdrawable refundable cliff_reached stream_time duration elapsed by_curve
    vested_linear checked_mul checked in_i128 ◌*ℤ◌ ◌/ℤ◌ ◌-ℤ◌ ◌+ℤ◌ checked_div checked_sub
    checked_add checked_add_u64 checked_sub_u64 as_u64 is_terminal
withdrawable_at_40 = refl

pub quote_at_40 : quote_cancel (sample linear) 40 ≡ ok (pos 400, pos 600)
unfolding vested withdrawable refundable cliff_reached stream_time duration elapsed by_curve
    vested_linear checked_mul checked in_i128 ◌*ℤ◌ ◌/ℤ◌ ◌-ℤ◌ ◌+ℤ◌ checked_div checked_sub
    checked_add checked_add_u64 checked_sub_u64 as_u64 is_terminal quote_cancel
quote_at_40 = refl

pub choose_300 : choose_payout (sample linear) 40 (some (pos 300)) ≡ ok (pos 300)
unfolding vested withdrawable refundable cliff_reached stream_time duration elapsed by_curve
    vested_linear checked_mul checked in_i128 ◌*ℤ◌ ◌/ℤ◌ ◌-ℤ◌ ◌+ℤ◌ checked_div checked_sub
    checked_add checked_add_u64 checked_sub_u64 as_u64 is_terminal choose_payout
choose_300 = refl

pub draw_300 :
    drawn (sample linear) (pos 300) 40 ≡ ok (record (sample linear) { withdrawn = pos 300 })
unfolding vested withdrawable refundable cliff_reached stream_time duration elapsed by_curve
    vested_linear checked_mul checked in_i128 ◌*ℤ◌ ◌/ℤ◌ ◌-ℤ◌ ◌+ℤ◌ checked_div checked_sub
    checked_add checked_add_u64 checked_sub_u64 as_u64 is_terminal drawn
draw_300 = refl

pub top_up_500 :
    topped_up (sample linear) (pos 500) 50
    ≡ ok (record (sample linear) { deposited = pos 1500; end_time = 150 })
unfolding vested withdrawable refundable cliff_reached stream_time duration elapsed by_curve
    vested_linear checked_mul checked in_i128 ◌*ℤ◌ ◌/ℤ◌ ◌-ℤ◌ ◌+ℤ◌ checked_div checked_sub
    checked_add checked_add_u64 checked_sub_u64 as_u64 is_terminal topped_up check_top_up
    top_up_duration_delta linear_delta grown check_monotone
top_up_500 = refl

pub delegate_top_up_10 :
    delegate_topped_up (sample step) (pos 10) 25
    ≡ ok (record (sample step) { deposited = pos 1010; end_time = 101 })
unfolding vested withdrawable refundable cliff_reached stream_time duration elapsed by_curve
    vested_linear checked_mul checked in_i128 ◌*ℤ◌ ◌/ℤ◌ ◌-ℤ◌ ◌+ℤ◌ checked_div checked_sub
    checked_add checked_add_u64 checked_sub_u64 as_u64 is_terminal delegate_topped_up check_top_up
    linear_delta grown
delegate_top_up_10 = refl

pub pause_at_40 : pause_stream (sample linear) 40 ≡ ok stopped
unfolding vested withdrawable refundable cliff_reached stream_time duration elapsed by_curve
    vested_linear checked_mul checked in_i128 ◌*ℤ◌ ◌/ℤ◌ ◌-ℤ◌ ◌+ℤ◌ checked_div checked_sub
    checked_add checked_add_u64 checked_sub_u64 as_u64 is_terminal pause_stream check_pause frozen
    check_monotone
pause_at_40 = refl

pub resume_at_70 : resume_stream stopped 70 ≡ ok (record (sample linear) { paused_total = 30 }, 30)
unfolding vested withdrawable refundable cliff_reached stream_time duration elapsed by_curve
    vested_linear checked_mul checked in_i128 ◌*ℤ◌ ◌/ℤ◌ ◌-ℤ◌ ◌+ℤ◌ checked_div checked_sub
    checked_add checked_add_u64 checked_sub_u64 as_u64 is_terminal resume_stream check_resume thawed
    check_monotone
resume_at_70 = refl
