-- ===== src/Factory/Calls.antt =====
-- What a call of the factory reads and writes: its errors and events, one field for each storage key,
-- the host's part, and calls as steps from a state to a reply.
use fluxora_contracts.Base.{ℕ, ℤ, Bool, if◌then◌else◌, Option, none, some, List, [], ◌∷◌, ◌++◌}
use fluxora_contracts.Types.{Address}

pub data FactoryError : Type 0 where
  already_initialized not_initialized unauthorized invalid_cap : FactoryError
  invalid_min_duration invalid_rate_bounds factory_paused : FactoryError

-- One constructor for each event struct of the source, with its fields in order.
pub data FactoryEvent : Type 0 where
  factory_inited : Address → Address → ℤ → ℕ → FactoryEvent
  factory_admin_updated stream_contract_updated : Address → Address → FactoryEvent
  batch_cap_enforcement_updated factory_pause_updated : Bool → FactoryEvent
  allowlist_updated : Address → Bool → FactoryEvent

pub record Host : Type 0 where
  pub max_ttl : ℕ
  pub authorized : Address → Bool

-- The calls of `extend_ttl`: on the instance, and on an entry of the allowlist.
pub data FactoryRent : Type 0 where
  instance_rent : ℕ → FactoryRent
  allowlist_rent : Address → ℕ → FactoryRent

pub record State : Type 0 where
  pub admin : Option Address
  pub stream_contract : Option Address
  pub max_deposit_cap : Option ℤ
  pub min_duration : Option ℕ
  pub batch_cap_enforced : Option Bool
  pub creation_paused : Option Bool
  pub min_rate_per_second : Option ℤ
  pub max_rate_per_second : Option ℤ
  pub allowlist : Address → Option Bool
  pub events : List FactoryEvent
  pub rents : List FactoryRent

-- An error or a trap rolls the state back, so only an answer carries one.
pub data Reply (A : Type 0) : Type 0 where
  replied : A → State → Reply A
  refused : FactoryError → Reply A
  trapped : Reply A

abbrev pub Step : Type 0 → Type 0
Step A = State → Reply A

abbrev pub answer : {A : Type 0} → A → Step A
answer a s = replied a s

abbrev pub gets : {A : Type 0} → (State → A) → Step A
gets read s = replied (read s) s

abbrev pub modify : (State → State) → Step Unit
modify change s = replied tt (change s)

abbrev present : {A : Type 0} → Option A → FactoryError → Step A
present (some a) e s = replied a s
present none e s = refused e

-- A required entry of the storage.
abbrev pub ok_or : {A : Type 0} → (State → Option A) → FactoryError → Step A
ok_or read e s = present (read s) e s

abbrev pub reject_if : Bool → FactoryError → Step Unit
reject_if test e s = if test then refused e else replied tt s

abbrev pub require_auth : Host → Address → Step Unit
require_auth h a s = if h.authorized a then replied tt s else trapped

abbrev pub publish : FactoryEvent → Step Unit
publish v s = replied tt (record s { events = s.events ++ v ∷ [] })

abbrev pub bump_instance : Host → Step Unit
bump_instance h s = replied tt (record s { rents = s.rents ++ instance_rent h.max_ttl ∷ [] })

abbrev pub bump_allowlist : Host → Address → Step Unit
bump_allowlist h a s = replied tt (record s { rents = s.rents ++ allowlist_rent a h.max_ttl ∷ [] })

abbrev resume : {A B : Type 0} → Reply A → (A → Step B) → Reply B
resume (replied a s) next = next a s
resume (refused e) next = refused e
resume trapped next = trapped

infixl 5 ◌>>=◌ ◌>>◌
abbrev pub ◌>>=◌ : {A B : Type 0} → Step A → (A → Step B) → Step B
◌>>=◌ first next s = resume (first s) next

abbrev pub ◌>>◌ : {B : Type 0} → Step Unit → Step B → Step B
first >> next = first >>= λ done. next
