-- ===== src/Tests/Factories.antt =====
-- The theorems on the factory, applied to one that is initialized and bounds the rates, and to a stream
-- that is created through it.
use fluxora_contracts.Base.{
  ℕ, ◌≤◌, ◌≡◌, refl, ◌⊎◌, pos, ◌≤ℤ◌, ◌/ℤ◌, ◌*ℤ◌, ◌+ℤ◌, ◌-ℤ◌, true, Option, none, some, [], ◌==◌,
  if◌then◌else◌, checked_mul, checked, in_i128, checked_add, checked_sub, checked_div,
  checked_add_u64, saturating_add_u64, saturating_mul_u64,
}
use fluxora_contracts.Errors.{Result, ok, err, trap}
use fluxora_contracts.Types.{Address, linear, from_stream}
use fluxora_contracts.Host.{Env, World}
use fluxora_contracts.Host.{
  ◌>>=◌, pure, lift, gets, ok_or, unwrap, reject_if, when, modify, require_auth, publish, rent,
}
use fluxora_contracts.Publish.{stream_created}
use fluxora_contracts.Storage.{
  seconds_to_ledgers, ttl_target_ledgers, extend_instance, extend_stream, write_entries,
  count_stream, save_stream, pooled_balance, set_pooled_balance, credit_pool, is_halted,
  next_stream_id,
}
use fluxora_contracts.Transition.Create.{check_terms, new_stream, check_policy, check_rate}
use fluxora_contracts.Contract.Create.{
  create_stream, create_stream_with_cliff_mode, create_stream_inner,
}
use fluxora_contracts.Contract.Payments.{pull_deposit, token_transfer, balance_of}
use fluxora_contracts.Contract.Guards.{require_not_halted}
use fluxora_contracts.Contract.Keeps.Reachable.{perform}
use fluxora_contracts.Contract.Create.{create_stream_via_factory}
use fluxora_contracts.Factory.Calls.{FactoryError, State, Reply, replied, refused, trapped}
use fluxora_contracts.Factory.Calls
use fluxora_contracts.Factory.{
  FactoryConfig, max_min_duration_seconds, min_deposit_cap, init, set_rate_bounds, set_allowlist,
  write_allowlist, require_admin, validate_cap, validate_min_duration, get_factory_config,
  is_allowlisted, load_policy,
}
use fluxora_contracts.Factory.Policy.{
  initializing, rotating, bounding, listing, apply, InOrder, IsPolicy, Configured, deployed,
  applied, Configured-IsPolicy, config_in_range, apply-signed,
}
use fluxora_contracts.Factory.Enforcement
use fluxora_contracts.Factory.Enforcement.{decoded, Satisfies, create_stream_via_factory-Satisfies}
use fluxora_contracts.Tests.{terms}
use fluxora_contracts.Tests.Calls.{env, empty}

abbrev host : Calls.Host
host = record { max_ttl = 1000; authorized = λ a. a == 7 }

abbrev unset : State
unset = record {
  admin = none;
  stream_contract = none;
  max_deposit_cap = none;
  min_duration = none;
  batch_cap_enforced = none;
  creation_paused = none;
  min_rate_per_second = none;
  max_rate_per_second = none;
  allowlist = λ a. none;
  events = [];
  rents = [];
}

abbrev state_of : Reply Unit → State
state_of (replied u s) = s
state_of (refused x) = unset
state_of trapped = unset

abbrev inited : State
inited = state_of (apply host (initializing 7 9 (pos 5000) 50) unset)

abbrev bounded : State
bounded = state_of (apply host (bounding (some (pos 1)) (some (pos 20))) inited)

abbrev listed : State
listed = state_of (apply host (listing 3 true) bounded)

inited-ok : apply host (initializing 7 9 (pos 5000) 50) unset ≡ replied tt inited
unfolding apply init validate_cap validate_min_duration
inited-ok = refl

bounded-ok : apply host (bounding (some (pos 1)) (some (pos 20))) inited ≡ replied tt bounded
unfolding apply init validate_cap validate_min_duration set_rate_bounds require_admin
bounded-ok = refl

bounded-Configured : Configured bounded
bounded-Configured =
    applied host (bounding (some (pos 1)) (some (pos 20)))
      (applied host (initializing 7 9 (pos 5000) 50)
        (deployed unset refl refl refl refl refl refl refl) inited-ok)
      bounded-ok

Configured-IsPolicy_example : IsPolicy bounded
Configured-IsPolicy_example = Configured-IsPolicy bounded bounded-Configured

config_in_range_example :
    (c : FactoryConfig) × (get_factory_config bounded ≡ replied c bounded)
    × (c.admin ≡ 7)
    × (min_deposit_cap ≤ℤ c.max_deposit)
    × (c.min_duration ≤ max_min_duration_seconds)
    × InOrder c.min_rate_per_second c.max_rate_per_second
unfolding apply init validate_cap validate_min_duration set_rate_bounds require_admin
config_in_range_example = config_in_range bounded 7 bounded-Configured refl

apply-signed_example :
    (host.authorized 7 ≡ true)
    × (((b : Address) × (bounding (some (pos 1)) (some (pos 20)) ≡ rotating b)
          × (bounded.admin ≡ some b))
        ⊎ (bounded.admin ≡ some 7))
unfolding apply init validate_cap validate_min_duration
apply-signed_example =
    apply-signed host (bounding (some (pos 1)) (some (pos 20))) inited bounded 7 refl bounded-ok

-- The factory at address 8, and a creation through it.
abbrev states : Address → Option State
states a = if a == 8 then some listed else none

abbrev through : Env ℕ
through = record env { factory = Enforcement.deployed states }

abbrev answered : Result (ℕ × World ℕ) → World ℕ
answered (ok (i, w)) = w
answered (err x) = empty
answered trap = empty

abbrev created_through : World ℕ
created_through = answered (create_stream_via_factory through 8 1 (terms linear) empty)

creating-ok : create_stream_via_factory through 8 1 (terms linear) empty ≡ ok (0, created_through)
unfolding create_stream_via_factory check_policy check_rate get_factory_config load_policy
    is_allowlisted apply init validate_cap validate_min_duration set_rate_bounds set_allowlist
    write_allowlist require_admin checked_div ◌/ℤ◌ perform create_stream
    create_stream_with_cliff_mode create_stream_inner check_terms new_stream next_stream_id
    extend_instance pull_deposit balance_of token_transfer credit_pool pooled_balance
    set_pooled_balance save_stream write_entries count_stream extend_stream ttl_target_ledgers
    seconds_to_ledgers saturating_add_u64 saturating_mul_u64 stream_created checked_mul checked
    in_i128 ◌*ℤ◌ ◌+ℤ◌ ◌-ℤ◌ checked_add checked_sub checked_add_u64 from_stream ◌>>=◌ pure lift gets
    ok_or unwrap reject_if when modify require_auth publish rent require_not_halted is_halted
creating-ok = refl

create_stream_via_factory-Satisfies_example :
    (c : FactoryConfig) × (s' : State) × (get_factory_config listed ≡ replied c s')
    × Satisfies (decoded c) (terms linear)
    × (is_allowlisted listed 3 ≡ true)
create_stream_via_factory-Satisfies_example =
    create_stream_via_factory-Satisfies through states 8 1 (terms linear) listed empty
      created_through 0 refl refl creating-ok
