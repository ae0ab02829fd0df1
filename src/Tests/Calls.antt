-- ===== src/Tests/Calls.antt =====
-- The theorems on calls, applied to a world in which one stream is created.
use fluxora_contracts.Base.{
  ℕ, ◌+◌, ◌-◌, ◌==◌, ◌≡◌, refl, pos, pos_part, ◌≤ℤ◌, true, false, if◌then◌else◌, none, some, [],
  ◌∷◌, arith, checked_mul, checked, in_i128, ◌*ℤ◌, ◌+ℤ◌, ◌-ℤ◌, checked_add, checked_sub,
  checked_add_u64, saturating_add_u64, saturating_mul_u64,
}
use fluxora_contracts.Errors.{discriminant, Result, ok, err, trap, contract_halted}
use fluxora_contracts.Types.{
  linear, step, from_stream, into_stream, DelegateGrant, BatchCancelOutcome, op_pause, is_terminal,
}
use fluxora_contracts.Accrual.{vested, withdrawable}
use fluxora_contracts.Host.{
  Token, ok_ok, Factory, Env, World, ◌>>=◌, pure, lift, gets, ok_or, unwrap, reject_if, when,
  modify, require_auth, publish, rent,
}
use fluxora_contracts.Publish.{stream_created, paused_event}
use fluxora_contracts.Storage.{
  seconds_to_ledgers, ttl_target_ledgers, extend_instance, extend_stream, find_stream,
  write_entries, count_stream, save_stream, next_stream_id, pooled_balance, set_pooled_balance,
  credit_pool, is_halted, load_delegate, read_stream, peek_stream, load_stream,
}
use fluxora_contracts.Storage.RoundTrip.{find_stream-write_entries}
use fluxora_contracts.Transition.Create.{check_terms, new_stream}
use fluxora_contracts.Transition.Pause.{delegate_pause_stream}
use fluxora_contracts.Transition.Cancel.{quote_cancel}
use fluxora_contracts.Contract.Guards.{
  require_not_halted, check_delegate, check_grant, validate_batch_ids, convert_ids,
  reject_duplicate_ids,
}
use fluxora_contracts.Contract.Delegates.{delegate_pause}
use fluxora_contracts.Contract.Delegates.Permission.{
  DelegateCall, IsPermitted, run, run-IsPermitted,
}
use fluxora_contracts.Contract.Payments.{token_transfer, balance_of, pull_deposit}
use fluxora_contracts.Contract.Create.{
  create_stream, create_stream_with_cliff_mode, create_stream_inner,
}
use fluxora_contracts.Contract.Cancel.{batch_cancel, resolve_owned, price_all, conclude}
use fluxora_contracts.Contract.Cancel.Batch.{batch_cancel-refused}
use fluxora_contracts.Contract.Halt.Refusal.{perform-halted}
use fluxora_contracts.Contract.Keeps.{AllWellFormed}
use fluxora_contracts.Contract.Keeps.Reachable.{
  creating, pausing, perform, Reachable, Reachable-AllWellFormed, Reachable-amounts,
}
use fluxora_contracts.Tests.{sample, terms}

-- One token: the state is what the contract, address 9, holds.
abbrev pub token : Token ℕ
token = record {
  balance = λ l t owner. some (pos l);
  try_transfer = λ l t from to amount.
      if to == 9 then ok_ok (l + pos_part amount) else ok_ok (l - pos_part amount);
}

abbrev pub factory : Factory
factory = record { get_factory_config = λ a. none; is_allowlisted = λ a t. none }

abbrev pub env : Env ℕ
env = record {
  now = 0;
  contract = 9;
  max_ttl = 1000;
  authorized = λ a. true;
  token = token;
  factory = factory;
}

abbrev pub empty : World ℕ
empty = record {
  next_stream_id = none;
  stream_count = none;
  pooled = λ t. none;
  streams = λ i. none;
  delegates = λ i d. none;
  curves = λ i. none;
  metadata = λ i. none;
  operator = none;
  halted_at = none;
  ledger = 0;
  events = [];
  rents = [];
}

abbrev pub world_of : Result (Unit × World ℕ) → World ℕ
world_of (ok (u, w)) = w
world_of (err e) = empty
world_of trap = empty

abbrev pub created : World ℕ
created = world_of (perform env (creating 1 (terms linear)) empty)

pub creating-ok : perform env (creating 1 (terms linear)) empty ≡ ok (tt, created)
unfolding perform create_stream create_stream_with_cliff_mode create_stream_inner check_terms
    new_stream next_stream_id extend_instance pull_deposit balance_of token_transfer credit_pool
    pooled_balance set_pooled_balance save_stream write_entries count_stream extend_stream
    ttl_target_ledgers seconds_to_ledgers saturating_add_u64 saturating_mul_u64 stream_created
    checked_mul checked in_i128 ◌*ℤ◌ ◌+ℤ◌ ◌-ℤ◌ checked_add checked_sub checked_add_u64 from_stream
    ◌>>=◌ pure lift gets ok_or unwrap reject_if when modify require_auth publish rent
    require_not_halted is_halted
creating-ok = refl

pub created-found : find_stream created 0 ≡ some (sample linear)
unfolding perform create_stream create_stream_with_cliff_mode create_stream_inner check_terms
    new_stream next_stream_id extend_instance pull_deposit balance_of token_transfer credit_pool
    pooled_balance set_pooled_balance save_stream write_entries count_stream extend_stream
    ttl_target_ledgers seconds_to_ledgers saturating_add_u64 saturating_mul_u64 stream_created
    checked_mul checked in_i128 ◌*ℤ◌ ◌+ℤ◌ ◌-ℤ◌ checked_add checked_sub checked_add_u64 from_stream
    ◌>>=◌ pure lift gets ok_or unwrap reject_if when modify require_auth publish rent
    require_not_halted is_halted find_stream into_stream
created-found = refl

created-Reachable : Reachable 60 created
created-Reachable = Reachable.later 60 (omega arith) (
    Reachable.called env (creating 1 (terms linear)) (Reachable.initial 0 empty (λ i. refl))
      creating-ok)

Reachable-AllWellFormed_example : AllWellFormed 60 created
Reachable-AllWellFormed_example = Reachable-AllWellFormed 60 created created-Reachable

Reachable-amounts_example :
    (v : ℕ) × (vested (sample linear) 60 ≡ ok (pos v))
    × (pos 0 ≤ℤ pos v)
    × (pos v ≤ℤ pos 1000)
    × (withdrawable (sample linear) 60 ≡ ok (pos (v - 0)))
Reachable-amounts_example =
    Reachable-amounts 60 created 0 (sample linear) created-Reachable created-found

find_stream-write_entries_example :
    find_stream (write_entries 5 (sample step) empty) 5
    ≡ (if 5 == 5 then some (sample step) else find_stream empty 5)
find_stream-write_entries_example = find_stream-write_entries empty 5 5 (sample step)

abbrev halted_world : World ℕ
halted_world = record empty { halted_at = some 7 }

perform-halted_example : perform env (pausing 0) halted_world ≡ err contract_halted
unfolding is_halted
perform-halted_example = perform-halted env (pausing 0) halted_world refl refl

abbrev grant : DelegateGrant
grant = record { ops = op_pause; expires_at = some 50 }

abbrev granted : World ℕ
granted = record (write_entries 0 (sample linear) empty) {
  delegates = λ i d. if d == 4 then some grant else none;
}

abbrev paused_by_delegate : World ℕ
paused_by_delegate = world_of (run env (DelegateCall.pausing 0 4) granted)

run-IsPermitted_example : IsPermitted env granted 0 4 2
unfolding delegate_pause require_not_halted check_delegate check_grant load_delegate load_stream
    ◌>>=◌ gets reject_if require_auth write_entries ok_or find_stream extend_stream when pure lift
    delegate_pause_stream is_terminal save_stream modify paused_event
run-IsPermitted_example =
    run-IsPermitted env (DelegateCall.pausing 0 4) granted paused_by_delegate refl

-- A stream that is not cancellable makes a batch of one refuse.
abbrev uncancellable : World ℕ
uncancellable = write_entries 0 (record (sample linear) { cancellable = false }) empty

abbrev refusal : BatchCancelOutcome
refusal = record { refunded = pos 0; refused_index = some 0; refused_reason = some 8 }

batch_cancel-refused_example : (uncancellable ≡ uncancellable) × (pos 0 ≡ pos 0)
unfolding batch_cancel validate_batch_ids convert_ids reject_duplicate_ids resolve_owned peek_stream
    read_stream find_stream write_entries from_stream into_stream price_all quote_cancel conclude
    discriminant ◌>>=◌ pure lift gets ok_or unwrap reject_if when modify require_auth
batch_cancel-refused_example =
    batch_cancel-refused env uncancellable 1 (some 0 ∷ []) refusal uncancellable 0 refl refl
