-- ===== src/Tests/Pools.antt =====
-- The theorems on the pools, applied to a contract that is deployed, where a stream is created, and from
-- which it is withdrawn or cancelled.
use fluxora_contracts.Base.{
  ℕ, ◌+◌, ◌≤◌, ◌≡◌, refl, pos, some, none, arith, checked_mul, checked, in_i128, ◌*ℤ◌, ◌+ℤ◌, ◌-ℤ◌,
  ◌/ℤ◌, checked_add, checked_sub, checked_div, checked_add_u64, saturating_add_u64,
  saturating_mul_u64,
}
use fluxora_contracts.Errors.{Result, ok, err, trap}
use fluxora_contracts.Types.{Stream, is_terminal, linear, from_stream, into_stream}
use fluxora_contracts.Accrual.{
  vested, withdrawable, refundable, stream_time, duration, elapsed, cliff_reached, vested_linear,
  by_curve,
}
use fluxora_contracts.Host.{
  Env, World, ◌>>=◌, pure, lift, gets, ok_or, unwrap, reject_if, when, modify, require_auth,
  publish, rent,
}
use fluxora_contracts.Publish.{withdrawn_event, cancelled_event}
use fluxora_contracts.Storage.{
  seconds_to_ledgers, ttl_target_ledgers, extend_instance, extend_stream, find_stream,
  write_entries, count_stream, save_stream, read_stream, load_stream, pooled_balance,
  set_pooled_balance, credit_pool, debit_pool, is_halted,
}
use fluxora_contracts.Transition.Withdraw.{choose_payout, drawn}
use fluxora_contracts.Transition.Cancel.{quote_cancel, settled}
use fluxora_contracts.Publish.{stream_created}
use fluxora_contracts.Storage.{next_stream_id}
use fluxora_contracts.Transition.Create.{check_terms, new_stream}
use fluxora_contracts.Contract.Create.{
  create_stream, create_stream_with_cliff_mode, create_stream_inner,
}
use fluxora_contracts.Contract.Payments.{pull_deposit}
use fluxora_contracts.Contract.Guards.{require_not_halted}
use fluxora_contracts.Contract.Payments.{token_transfer, balance_of, verify_pool_balance}
use fluxora_contracts.Contract.Withdraw.{withdraw, apply_withdrawal}
use fluxora_contracts.Contract.Cancel.{cancel, settle_cancel, pay_refund}
use fluxora_contracts.Contract.Keeps.Reachable.{creating, perform}
use fluxora_contracts.Contract.Book.{view}
use fluxora_contracts.Contract.Pool.{held, total_held}
use fluxora_contracts.Contract.Pool.Posts.{enter}
use fluxora_contracts.Contract.Pool.Deployed.{
  Deployed, fresh, later, called, next_id, Deployed-pool, Deployed-claims,
}
use fluxora_contracts.Contract.Pool.Solvent.{CoversAll, withdraw-Solvent, cancel-Solvent}
use fluxora_contracts.Contract.Pool.Refinement.{saving, storage-refines}
use fluxora_contracts.Tests.{sample, terms}
use fluxora_contracts.Tests.Calls.{env, empty, created, creating-ok, created-found}

created-Deployed : Deployed 60 created
created-Deployed = later 60 (omega arith) (
    called env (creating 1 (terms linear))
      (fresh 0 empty record { no_streams = λ i. refl; no_pools = λ t. refl; no_ids = refl })
      creating-ok)

Deployed-pool_example :
    (pooled_balance created 3 ≡ pos (total_held (find_stream created) 3 (next_id created)))
    × ((i : ℕ) → next_id created ≤ i → find_stream created i ≡ none)
Deployed-pool_example = Deployed-pool 60 created 3 created-Deployed

Deployed-claims_example :
    (a : ℕ) × (r : ℕ) × (p : ℕ) × (withdrawable (sample linear) 60 ≡ ok (pos a))
    × (refundable (sample linear) 60 ≡ ok (pos r))
    × (held (sample linear) ≡ a + r)
    × (pooled_balance created 3 ≡ pos p)
    × (a + r ≤ p)
Deployed-claims_example =
    Deployed-claims 60 created 0 (sample linear) created-Deployed created-found

-- The environment a minute later.
abbrev minute : Env ℕ
minute = record env { now = 60 }

abbrev answered : {A : Type 0} → World ℕ → Result (A × World ℕ) → World ℕ
answered w (ok (a, w')) = w'
answered w (err x) = w
answered w trap = w

abbrev after_withdrawal : World ℕ
after_withdrawal = answered created (withdraw minute 0 none created)

withdrawing-ok : withdraw minute 0 none created ≡ ok (pos 600, after_withdrawal)
unfolding withdraw apply_withdrawal choose_payout drawn withdrawn_event load_stream read_stream
    debit_pool verify_pool_balance vested withdrawable stream_time duration elapsed cliff_reached
    vested_linear by_curve checked_div ◌/ℤ◌ into_stream find_stream perform create_stream
    create_stream_with_cliff_mode create_stream_inner check_terms new_stream next_stream_id
    extend_instance pull_deposit balance_of token_transfer credit_pool pooled_balance
    set_pooled_balance save_stream write_entries count_stream extend_stream ttl_target_ledgers
    seconds_to_ledgers saturating_add_u64 saturating_mul_u64 stream_created checked_mul checked
    in_i128 ◌*ℤ◌ ◌+ℤ◌ ◌-ℤ◌ checked_add checked_sub checked_add_u64 from_stream ◌>>=◌ pure lift gets
    ok_or unwrap reject_if when modify require_auth publish rent require_not_halted is_halted
withdrawing-ok = refl

withdraw-Solvent_example :
    (s : Stream) × (find_stream created 0 ≡ some s) × CoversAll minute s.token after_withdrawal
withdraw-Solvent_example =
    withdraw-Solvent minute created after_withdrawal 0 none (pos 600) created-Deployed
      withdrawing-ok

abbrev after_cancellation : World ℕ
after_cancellation = answered created (cancel minute 0 created)

cancelling-ok : cancel minute 0 created ≡ ok (tt, after_cancellation)
unfolding cancel settle_cancel pay_refund quote_cancel settled cancelled_event load_stream
    read_stream debit_pool verify_pool_balance vested refundable stream_time duration elapsed
    cliff_reached vested_linear by_curve is_terminal checked_div ◌/ℤ◌ into_stream find_stream
    perform create_stream create_stream_with_cliff_mode create_stream_inner check_terms new_stream
    next_stream_id extend_instance pull_deposit balance_of token_transfer credit_pool pooled_balance
    set_pooled_balance save_stream write_entries count_stream extend_stream ttl_target_ledgers
    seconds_to_ledgers saturating_add_u64 saturating_mul_u64 stream_created checked_mul checked
    in_i128 ◌*ℤ◌ ◌+ℤ◌ ◌-ℤ◌ checked_add checked_sub checked_add_u64 from_stream ◌>>=◌ pure lift gets
    ok_or unwrap reject_if when modify require_auth publish rent require_not_halted is_halted
cancelling-ok = refl

cancel-Solvent_example :
    (s : Stream) × (find_stream created 0 ≡ some s) × CoversAll minute s.token after_cancellation
cancel-Solvent_example =
    cancel-Solvent minute created after_cancellation 0 created-Deployed cancelling-ok

abbrev after_saving : World ℕ
after_saving = answered empty (save_stream env 0 (sample linear) empty)

saving-ok : save_stream env 0 (sample linear) empty ≡ ok (tt, after_saving)
unfolding perform create_stream create_stream_with_cliff_mode create_stream_inner check_terms
    new_stream next_stream_id extend_instance pull_deposit balance_of token_transfer credit_pool
    pooled_balance set_pooled_balance save_stream write_entries count_stream extend_stream
    ttl_target_ledgers seconds_to_ledgers saturating_add_u64 saturating_mul_u64 stream_created
    checked_mul checked in_i128 ◌*ℤ◌ ◌+ℤ◌ ◌-ℤ◌ checked_add checked_sub checked_add_u64 from_stream
    ◌>>=◌ pure lift gets ok_or unwrap reject_if when modify require_auth publish rent
    require_not_halted is_halted
saving-ok = refl

storage-refines_example : view after_saving ≡ enter 0 (sample linear) (view empty)
storage-refines_example =
    storage-refines env (saving 0 (sample linear)) empty after_saving saving-ok
