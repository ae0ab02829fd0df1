-- ===== src/Tests/Streams.antt =====
-- The theorems on one stream applied to the stream of the tests.
use fluxora_contracts.Base.{
  ℕ, ◌+◌, ◌-◌, ◌/◌, ◌≤◌, ◌<◌, ◌≡◌, refl, ℤ, pos, ◌≤ℤ◌, ◌+ℤ◌, none, some, arith,
}
use fluxora_contracts.Errors.{ok}
use fluxora_contracts.Types.{linear, step, front_loaded, is_terminal}
use fluxora_contracts.Accrual.{
  stream_time, duration, elapsed, cliff_reached, vested, withdrawable, refundable,
}
use fluxora_contracts.Accrual.Bounds.{
  IsFunded, vested_bounds, vested_mono, vested_at_maturity, vested_add_refundable,
  withdrawable_bounds,
}
use fluxora_contracts.Accrual.FrontLoaded.{front_loaded-ge-linear, front_loaded_lags}
use fluxora_contracts.Transition.Create.{new_stream}
use fluxora_contracts.Transition.TopUp.{topped_up, delegate_topped_up}
use fluxora_contracts.Transition.TopUp.Vesting.{vested_after_top_up}
use fluxora_contracts.Transition.TopUp.Delegated.{
  topped_up-eq-delegate_topped_up, delegate_top_up_revokes_tranche,
}
use fluxora_contracts.Transition.Withdraw.Payout.{choose_payout-eq}
use fluxora_contracts.Transition.Withdraw.Keeps.{drawn-IsWellFormed}
use fluxora_contracts.Transition.Cancel.{dust, settled}
use fluxora_contracts.Transition.Cancel.Settlement.{quote_cancel-partition, vested-settled}
use fluxora_contracts.Transition.Pause.{
  pause_stream, resume_stream, delegate_pause_stream, delegate_resume_stream,
}
use fluxora_contracts.Transition.Pause.Clock.{
  pause_freezes, pause_resume_shifts, pause-eq-delegate_pause, resume-eq-delegate_resume,
}
use fluxora_contracts.Contract.Keeps.Dust.{dust-zero}
use fluxora_contracts.Transition.Invariant.{IsWellFormed}
use fluxora_contracts.Transition.Invariant.Keeps.{new_stream-IsWellFormed}
use fluxora_contracts.Transition.Invariant.Pays.{settled-IsWellFormed, topped_up-IsWellFormed}
use fluxora_contracts.Tests.{
  top_up_500, delegate_top_up_10, withdrawable_at_40, choose_300, quote_at_40, vested_at_40,
  pause_at_40, draw_300, resume_at_70, terms, sample, terms-ok, sample_formed, sample-IsFunded,
  stopped,
}

new_stream-IsWellFormed_example : IsWellFormed 25 (new_stream 1 (terms step))
new_stream-IsWellFormed_example = new_stream-IsWellFormed 1 (terms step) 25 (terms-ok step)

vested_bounds_example :
    (v : ℕ) × (vested (sample front_loaded) 25 ≡ ok (pos v)) × (pos v ≤ℤ pos 1000)
vested_bounds_example = vested_bounds (sample front_loaded) 25 (sample-IsFunded front_loaded 25)

vested_mono_example :
    (v w : ℕ) × (vested (sample step) 20 ≡ ok (pos v))
    × (vested (sample step) 60 ≡ ok (pos w))
    × (v ≤ w)
vested_mono_example = vested_mono (sample step) 20 60 (sample-IsFunded step 20) (omega arith)

vested_at_maturity_example : vested (sample linear) 120 ≡ ok (pos 1000)
unfolding stream_time
vested_at_maturity_example = vested_at_maturity (sample linear) 120 (omega arith) tt (ground arith)

vested_add_refundable_example :
    (v r : ℕ) × (vested (sample linear) 40 ≡ ok (pos v))
    × (refundable (sample linear) 40 ≡ ok (pos r))
    × (pos (v + r) ≡ pos 1000)
vested_add_refundable_example = vested_add_refundable (sample linear) 40 (sample-IsFunded linear 40)

withdrawable_bounds_example :
    (a : ℕ) × (withdrawable (sample linear) 40 ≡ ok (pos a)) × (pos 0 +ℤ pos a ≤ℤ pos 1000)
withdrawable_bounds_example =
    withdrawable_bounds (sample linear) 40 (sample-IsFunded linear 40) (omega arith) (omega arith)

front_loaded-ge-linear_example :
    (v w : ℕ) × (vested (sample linear) 25 ≡ ok (pos v))
    × (vested (sample front_loaded) 25 ≡ ok (pos w))
    × (v ≤ w)
unfolding elapsed duration stream_time
front_loaded-ge-linear_example =
    front_loaded-ge-linear (sample linear) 25 (sample-IsFunded linear 25) (ground arith)

front_loaded_lags_example :
    vested
      (record (sample front_loaded) { end_time = 5000; deposited = pos 90000; cliff_time = 0 })
      4
    ≡ ok (pos 0)
unfolding elapsed duration stream_time
front_loaded_lags_example =
    front_loaded_lags
      (record (sample front_loaded) { end_time = 5000; deposited = pos 90000; cliff_time = 0 }) 4
      long_funded refl (ground arith)
  where
    long_funded :
        IsFunded 4
          (record (sample front_loaded) { end_time = 5000; deposited = pos 90000; cliff_time = 0 })
    long_funded = record {
      nonneg = omega arith;
      in_range = omega arith;
      product_fits = λ h. omega arith;
    }

vested_after_top_up_example :
    (v w : ℕ) × (vested (sample linear) 70 ≡ ok (pos v))
    × (vested (record (sample linear) { deposited = pos 1500; end_time = 150 }) 70 ≡ ok (pos w))
    × (v ≤ w)
vested_after_top_up_example =
    vested_after_top_up (sample linear) (pos 500) 50 70 (sample-IsFunded linear 50) (omega arith)
      (omega arith) top_up_500

topped_up-IsWellFormed_example :
    IsWellFormed 50 (record (sample linear) { deposited = pos 1500; end_time = 150 })
topped_up-IsWellFormed_example =
    topped_up-IsWellFormed 50 (sample linear) (pos 500) top_up_500 (sample_formed linear 50)

topped_up-eq-delegate_topped_up_example :
    topped_up (sample linear) (pos 500) 50 ≡ delegate_topped_up (sample linear) (pos 500) 50
topped_up-eq-delegate_topped_up_example =
    topped_up-eq-delegate_topped_up (sample linear) (pos 500) 50 (sample-IsFunded linear 50)
      (omega arith) refl

-- With 250 of 1000 vested, 10 more revoke the tranche.
delegate_top_up_revokes_tranche_example :
    (v : ℕ) × (vested (sample step) 25 ≡ ok (pos v))
    × (1000 / 4 ≤ v)
    × (vested (record (sample step) { deposited = pos 1010; end_time = 101 }) 25 ≡ ok (pos 0))
unfolding elapsed duration stream_time cliff_reached
delegate_top_up_revokes_tranche_example =
    delegate_top_up_revokes_tranche (sample step)
      (record (sample step) { deposited = pos 1010; end_time = 101 }) (pos 10) 25
      (sample-IsFunded step 25) (omega arith) refl refl delegate_top_up_10 (omega arith)
      (omega arith)

choose_payout-eq_example :
    (p : ℕ) × (pos 300 ≡ pos p)
    × (0 < p)
    × (p ≤ 400)
    × (some (pos 300) ≡ none → p ≡ 400)
    × ((requested : ℤ) → some (pos 300) ≡ some requested → pos 300 ≡ requested)
choose_payout-eq_example =
    choose_payout-eq (sample linear) 40 400 (some (pos 300)) withdrawable_at_40 choose_300

drawn-IsWellFormed_example :
    IsWellFormed 40 (record (sample linear) { withdrawn = pos 300 }) × (pos 300 ≡ pos (0 + 300))
drawn-IsWellFormed_example =
    drawn-IsWellFormed 40 (sample linear) (some (pos 300)) choose_300 draw_300
      (sample_formed linear 40)

quote_cancel-partition_example :
    (vested (sample linear) 40 ≡ ok (pos 400))
    × (pos 400 +ℤ pos 600 ≡ pos 1000)
    × (pos 0 ≤ℤ pos 400)
    × (pos 0 ≤ℤ pos 600)
quote_cancel-partition_example =
    quote_cancel-partition (sample linear) 40 (sample-IsFunded linear 40) quote_at_40

vested-settled_example : vested (settled (sample linear) 40 (pos 400)) 90 ≡ ok (pos 400)
vested-settled_example =
    vested-settled (sample linear) 40 90 (pos 400) tt vested_at_40 (omega arith)

settled-IsWellFormed_example : IsWellFormed 40 (settled (sample linear) 40 (pos 400))
settled-IsWellFormed_example =
    settled-IsWellFormed 40 (sample linear) quote_at_40 (sample_formed linear 40)

pause_freezes_example : vested stopped 90 ≡ vested (sample linear) 40
pause_freezes_example = pause_freezes (sample linear) 40 90 refl refl pause_at_40

pause_resume_shifts_example :
    (30 ≡ 70 - 40)
    × (vested (record (sample linear) { paused_total = 30 }) (70 + 20)
        ≡ vested (sample linear) (40 + 20))
pause_resume_shifts_example =
    pause_resume_shifts (sample linear) 40 70 20 refl refl (omega arith) pause_at_40 resume_at_70

pause-eq-delegate_pause_example :
    pause_stream (sample linear) 40 ≡ delegate_pause_stream (sample linear) 40
pause-eq-delegate_pause_example =
    pause-eq-delegate_pause (sample linear) 40 (sample-IsFunded linear 40) refl

resume-eq-delegate_resume_example : resume_stream stopped 70 ≡ delegate_resume_stream stopped 70
unfolding duration
resume-eq-delegate_resume_example =
    resume-eq-delegate_resume stopped 70
      (record { nonneg = omega arith; in_range = omega arith; product_fits = λ h. omega arith })
      (omega arith)

dust-zero_example : dust (settled (sample linear) 40 (pos 400)) 40 ≡ ok (pos 0)
unfolding settled is_terminal
dust-zero_example =
    dust-zero (settled (sample linear) 40 (pos 400)) 40
      (settled-IsWellFormed 40 (sample linear) quote_at_40 (sample_formed linear 40)) refl
