-- ===== src/Factory.antt =====
-- The factory contract (contracts/factory/src/lib.rs): the policy that an admin sets, and its views.
pub mod Calls
pub mod Policy
pub mod Enforcement
use fluxora_contracts.Base.{
  ℕ, ◌*◌, ℤ, pos, ltb, ltb_ℤ, Bool, true, false, ◌||◌, if◌then◌else◌, Option, none, some,
}
use fluxora_contracts.Types.{Address, is_some}
use fluxora_contracts.Host.{update}
use fluxora_contracts.Factory.Calls.{
  FactoryError, already_initialized, not_initialized, invalid_cap, invalid_min_duration,
  invalid_rate_bounds, factory_paused, FactoryEvent, factory_inited, factory_admin_updated,
  stream_contract_updated, batch_cap_enforcement_updated, allowlist_updated, factory_pause_updated,
  Host, State, Reply, Step, answer, gets, modify, ok_or, reject_if, require_auth, bump_instance,
  bump_allowlist, publish, ◌>>=◌, ◌>>◌,
}

abbrev pub max_min_duration_seconds : ℕ
max_min_duration_seconds = 100 * 365 * 24 * 60 * 60

abbrev pub min_deposit_cap : ℤ
min_deposit_cap = pos 1

-- The constraints that a creation path consults.
pub record FactoryPolicy : Type 0 where
  pub stream_contract : Address
  pub max_deposit : ℤ
  pub min_duration : ℕ
  pub batch_cap_enforced : Bool
  pub creation_paused : Bool
  pub min_rate_per_second : Option ℤ
  pub max_rate_per_second : Option ℤ

pub record FactoryConfig : Type 0 where
  pub admin : Address
  pub stream_contract : Address
  pub max_deposit : ℤ
  pub min_duration : ℕ
  pub batch_cap_enforced : Bool
  pub creation_paused : Bool
  pub min_rate_per_second : Option ℤ
  pub max_rate_per_second : Option ℤ

-- `unwrap_or(false)`
abbrev pub or_false : Option Bool → Bool
or_false none = false
or_false (some b) = b

-- `or_else`
abbrev pub or_else : Option ℤ → Option ℤ → Option ℤ
or_else none old = old
or_else (some new) old = some new

unfoldable pub load_policy : Step FactoryPolicy
load_policy = do
  stream_contract ← ok_or (λ s. s.stream_contract) not_initialized
  max_deposit ← ok_or (λ s. s.max_deposit_cap) not_initialized
  min_duration ← ok_or (λ s. s.min_duration) not_initialized
  batch_cap_enforced ← ok_or (λ s. s.batch_cap_enforced) not_initialized
  creation_paused ← gets (λ s. or_false s.creation_paused)
  min_rate ← gets (λ s. s.min_rate_per_second)
  max_rate ← gets (λ s. s.max_rate_per_second)
  answer record {
    stream_contract = stream_contract;
    max_deposit = max_deposit;
    min_duration = min_duration;
    batch_cap_enforced = batch_cap_enforced;
    creation_paused = creation_paused;
    min_rate_per_second = min_rate;
    max_rate_per_second = max_rate;
  }

unfoldable pub require_admin : Host → Step Address
require_admin h = do
  admin ← ok_or (λ s. s.admin) not_initialized
  require_auth h admin
  answer admin

unfoldable pub validate_cap : ℤ → Step Unit
validate_cap max_deposit = reject_if (ltb_ℤ max_deposit min_deposit_cap) invalid_cap

unfoldable pub validate_min_duration : ℕ → Step Unit
validate_min_duration min_duration =
    reject_if (ltb max_min_duration_seconds min_duration) invalid_min_duration

unfoldable pub init : Host → Address → Address → ℤ → ℕ → Step Unit
init h admin stream_contract max_deposit min_duration = do
  initialized ← gets (λ s. is_some s.admin)
  reject_if initialized already_initialized
  require_auth h admin
  validate_cap max_deposit
  validate_min_duration min_duration
  modify (λ s. record s {
    admin = some admin;
    stream_contract = some stream_contract;
    max_deposit_cap = some max_deposit;
    min_duration = some min_duration;
    batch_cap_enforced = some true;
  })
  bump_instance h
  publish (factory_inited admin stream_contract max_deposit min_duration)

unfoldable pub set_admin : Host → Address → Step Unit
set_admin h new_admin = do
  old_admin ← require_admin h
  modify (λ s. record s { admin = some new_admin })
  bump_instance h
  publish (factory_admin_updated old_admin new_admin)

unfoldable pub set_stream_contract : Host → Address → Step Unit
set_stream_contract h new_contract = do
  admin ← require_admin h
  old_contract ← ok_or (λ s. s.stream_contract) not_initialized
  modify (λ s. record s { stream_contract = some new_contract })
  bump_instance h
  publish (stream_contract_updated old_contract new_contract)

unfoldable pub set_cap : Host → ℤ → Step Unit
set_cap h max_deposit = do
  admin ← require_admin h
  validate_cap max_deposit
  modify (λ s. record s { max_deposit_cap = some max_deposit })
  bump_instance h

unfoldable pub set_min_duration : Host → ℕ → Step Unit
set_min_duration h min_duration = do
  admin ← require_admin h
  validate_min_duration min_duration
  modify (λ s. record s { min_duration = some min_duration })
  bump_instance h

-- Removal deletes the entry; an entry that is added gets its own rent.
unfoldable pub write_allowlist : Host → Address → Bool → Step Unit
write_allowlist h recipient true = do
  modify (λ s. record s { allowlist = update s.allowlist recipient (some true) })
  bump_allowlist h recipient
write_allowlist h recipient false =
    modify (λ s. record s { allowlist = update s.allowlist recipient none })

unfoldable pub set_allowlist : Host → Address → Bool → Step Unit
set_allowlist h recipient allowed = do
  admin ← require_admin h
  write_allowlist h recipient allowed
  bump_instance h
  publish (allowlist_updated recipient allowed)

unfoldable pub set_batch_cap_enforcement : Host → Bool → Step Unit
set_batch_cap_enforcement h enabled = do
  admin ← require_admin h
  modify (λ s. record s { batch_cap_enforced = some enabled })
  bump_instance h
  publish (batch_cap_enforcement_updated enabled)

abbrev is_negative : Option ℤ → Bool
is_negative none = false
is_negative (some rate) = ltb_ℤ rate (pos 0)

abbrev is_inverted : Option ℤ → Option ℤ → Bool
is_inverted (some min_rate) (some max_rate) = ltb_ℤ max_rate min_rate
is_inverted (some min_rate) none = false
is_inverted none max_rate = false

-- A bound that is not supplied stays as it is.
unfoldable pub set_rate_bounds : Host → Option ℤ → Option ℤ → Step Unit
set_rate_bounds h min_rate max_rate = do
  admin ← require_admin h
  reject_if (is_negative min_rate) invalid_rate_bounds
  reject_if (is_negative max_rate) invalid_rate_bounds
  new_min ← gets (λ s. or_else min_rate s.min_rate_per_second)
  new_max ← gets (λ s. or_else max_rate s.max_rate_per_second)
  reject_if (is_inverted new_min new_max) invalid_rate_bounds
  modify (λ s. record s {
    min_rate_per_second = or_else min_rate s.min_rate_per_second;
    max_rate_per_second = or_else max_rate s.max_rate_per_second;
  })
  bump_instance h

unfoldable pub set_factory_paused : Host → Bool → Step Unit
set_factory_paused h paused = do
  admin ← require_admin h
  modify (λ s. record s { creation_paused = some paused })
  bump_instance h
  publish (factory_pause_updated paused)

unfoldable pub assert_creation_allowed : Step Unit
assert_creation_allowed = do policy ← load_policy; reject_if policy.creation_paused factory_paused

unfoldable pub is_factory_paused : State → Bool
is_factory_paused s = or_false s.creation_paused

unfoldable pub is_allowlisted : State → Address → Bool
is_allowlisted s recipient = or_false (s.allowlist recipient)

unfoldable pub get_factory_config : Step FactoryConfig
get_factory_config = do
  policy ← load_policy
  admin ← ok_or (λ s. s.admin) not_initialized
  answer record {
    admin = admin;
    stream_contract = policy.stream_contract;
    max_deposit = policy.max_deposit;
    min_duration = policy.min_duration;
    batch_cap_enforced = policy.batch_cap_enforced;
    creation_paused = policy.creation_paused;
    min_rate_per_second = policy.min_rate_per_second;
    max_rate_per_second = policy.max_rate_per_second;
  }
