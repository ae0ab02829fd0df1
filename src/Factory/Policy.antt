-- ===== src/Factory/Policy.antt =====
-- The policies that sequences of the factory's entry points reach, and who can change them.
use fluxora_contracts.Base.{
  ℕ, ◌≤◌, ◌≡◌, refl, ap, ◌∙◌, subst, ◌⊎◌, inl, inr, ℤ, pos, ◌≤ℤ◌, Bool, true, false, Option, none,
  some, arith,
}
use fluxora_contracts.Types.{Address, is_some}
use fluxora_contracts.Factory.Calls.{Host, State, replied, Step}
use fluxora_contracts.Factory.{
  or_false, max_min_duration_seconds, min_deposit_cap, FactoryConfig, load_policy, require_admin,
  validate_cap, validate_min_duration, init, set_admin, set_stream_contract, set_cap,
  set_min_duration, write_allowlist, set_allowlist, set_batch_cap_enforcement, set_rate_bounds,
  set_factory_paused, get_factory_config,
}

-- The entry points that change the state, with their arguments.
pub data Setting : Type 0 where
  initializing : Address → Address → ℤ → ℕ → Setting
  rotating routing : Address → Setting
  capping : ℤ → Setting
  lasting : ℕ → Setting
  listing : Address → Bool → Setting
  enforcing pausing : Bool → Setting
  bounding : Option ℤ → Option ℤ → Setting

unfoldable pub apply : Host → Setting → Step Unit
apply h (initializing a c d m) = init h a c d m
apply h (rotating a) = set_admin h a
apply h (routing c) = set_stream_contract h c
apply h (capping d) = set_cap h d
apply h (lasting m) = set_min_duration h m
apply h (listing r b) = set_allowlist h r b
apply h (enforcing b) = set_batch_cap_enforcement h b
apply h (bounding lo hi) = set_rate_bounds h lo hi
apply h (pausing b) = set_factory_paused h b

abbrev pub HasCap : Option ℤ → Type 0
HasCap none = Unit
HasCap (some cap) = min_deposit_cap ≤ℤ cap

abbrev pub HasDuration : Option ℕ → Type 0
HasDuration none = Unit
HasDuration (some d) = d ≤ max_min_duration_seconds

abbrev pub InOrder : Option ℤ → Option ℤ → Type 0
InOrder none none = Unit
InOrder (some lo) none = pos 0 ≤ℤ lo
InOrder none (some hi) = pos 0 ≤ℤ hi
InOrder (some lo) (some hi) = (pos 0 ≤ℤ lo) × (lo ≤ℤ hi)

-- A policy is complete once there is an admin, and its values are in range.
pub record IsPolicy (s : State) : Type 0 where
  pub routed : is_some s.stream_contract ≡ is_some s.admin
  pub has_cap : is_some s.max_deposit_cap ≡ is_some s.admin
  pub has_duration : is_some s.min_duration ≡ is_some s.admin
  pub has_enforcement : is_some s.batch_cap_enforced ≡ is_some s.admin
  pub cap : HasCap s.max_deposit_cap
  pub duration : HasDuration s.min_duration
  pub rates : InOrder s.min_rate_per_second s.max_rate_per_second

pub init-IsPolicy :
    (h : Host) (a c : Address) (d : ℤ) (m : ℕ) (s s' : State)
    → init h a c d m s ≡ replied tt s'
    → IsPolicy s
    → IsPolicy s'
unfolding init validate_cap validate_min_duration
init-IsPolicy h a c d m s s' e i = ground arith

setter-IsPolicy :
    (h : Host) (op : Setting) (s s' : State)
    → apply h op s ≡ replied tt s'
    → IsPolicy s
    → IsPolicy s'
unfolding apply require_admin validate_cap validate_min_duration set_admin set_stream_contract
    set_cap set_min_duration set_allowlist write_allowlist set_batch_cap_enforcement set_rate_bounds
    set_factory_paused
setter-IsPolicy h (initializing a c d m) s s' e i = init-IsPolicy h a c d m s s' e i
setter-IsPolicy h (rotating a) s s' e i = ground arith
setter-IsPolicy h (routing c) s s' e i = ground arith
setter-IsPolicy h (capping d) s s' e i = ground arith
setter-IsPolicy h (lasting m) s s' e i = ground arith
setter-IsPolicy h (listing r true) s s' e i = ground arith
setter-IsPolicy h (listing r false) s s' e i = ground arith
setter-IsPolicy h (enforcing b) s s' e i = ground arith
setter-IsPolicy h (bounding none none) s s' e i = ground arith
setter-IsPolicy h (bounding (some lo) none) s s' e i = ground arith
setter-IsPolicy h (bounding none (some hi)) s s' e i = ground arith
setter-IsPolicy h (bounding (some lo) (some hi)) s s' e i = ground arith
setter-IsPolicy h (pausing b) s s' e i = ground arith

-- The states after any number of successful calls on a new factory, by any callers.
pub data Configured : State → Type 0 where
  deployed :
      (s : State)
      → s.admin ≡ none
      → s.stream_contract ≡ none
      → s.max_deposit_cap ≡ none
      → s.min_duration ≡ none
      → s.batch_cap_enforced ≡ none
      → s.min_rate_per_second ≡ none
      → s.max_rate_per_second ≡ none
      → Configured s
  applied :
      {s s' : State} (h : Host) (op : Setting)
      → Configured s
      → apply h op s ≡ replied tt s'
      → Configured s'

-- In every state that a new factory reaches by successful calls the required entries are present
-- exactly when there is an admin, a stored cap is at least one, a stored minimum duration at most a
-- hundred years, and stored rate bounds are not negative and in order.
pub Configured-IsPolicy : (s : State) → Configured s → IsPolicy s
Configured-IsPolicy s (deployed _ a c d m b lo hi) = record {
  routed = cc (a, c);
  has_cap = cc (a, d);
  has_duration = cc (a, m);
  has_enforcement = cc (a, b);
  cap = ground (arith, d);
  duration = ground (arith, m);
  rates = ground (arith, lo, hi);
}
Configured-IsPolicy _ (applied {s = s} {s' = s'} h op r e) =
    setter-IsPolicy h op s s' e (Configured-IsPolicy s r)

held : {A : Type 0} (o : Option A) → is_some o ≡ true → (a : A) × (o ≡ some a)
held none h = cc
held (some a) h = (a, refl)

config_of_policy :
    (s : State) (a : Address)
    → IsPolicy s
    → s.admin ≡ some a
    → (c : FactoryConfig) × (get_factory_config s ≡ replied c s)
      × (c.admin ≡ a)
      × (min_deposit_cap ≤ℤ c.max_deposit)
      × (c.min_duration ≤ max_min_duration_seconds)
      × InOrder c.min_rate_per_second c.max_rate_per_second
unfolding get_factory_config load_policy
config_of_policy s a i h =
    let (c, routed) = held s.stream_contract (i.routed ∙ ap is_some h) in
    let (d, capped) = held s.max_deposit_cap (i.has_cap ∙ ap is_some h) in
    let (m, lasts) = held s.min_duration (i.has_duration ∙ ap is_some h) in
    let (b, enforced) = held s.batch_cap_enforced (i.has_enforcement ∙ ap is_some h) in
    (
      record {
        admin = a;
        stream_contract = c;
        max_deposit = d;
        min_duration = m;
        batch_cap_enforced = b;
        creation_paused = or_false s.creation_paused;
        min_rate_per_second = s.min_rate_per_second;
        max_rate_per_second = s.max_rate_per_second;
      },
      ground arith,
      refl,
      subst HasCap capped i.cap,
      subst HasDuration lasts i.duration,
      i.rates,
    )

-- In every state that a new factory reaches by successful calls, once there is an admin
-- `get_factory_config` succeeds, leaves the state, and answers a configuration with that admin, a
-- cap of at least one, a minimum duration of at most a hundred years, and rate bounds that are not
-- negative and in order where they are set.
pub config_in_range :
    (s : State) (a : Address)
    → Configured s
    → s.admin ≡ some a
    → (c : FactoryConfig) × (get_factory_config s ≡ replied c s)
      × (c.admin ≡ a)
      × (min_deposit_cap ≤ℤ c.max_deposit)
      × (c.min_duration ≤ max_min_duration_seconds)
      × InOrder c.min_rate_per_second c.max_rate_per_second
config_in_range s a r h = config_of_policy s a (Configured-IsPolicy s r) h

-- Once a factory has an admin, every successful call that changes its state is authorized by that
-- admin, and the admin stays the same unless the call is `set_admin`, which installs exactly the
-- new one.
pub apply-signed :
    (h : Host) (op : Setting) (s s' : State) (a : Address)
    → s.admin ≡ some a
    → apply h op s ≡ replied tt s'
    → (h.authorized a ≡ true)
      × (((b : Address) × (op ≡ rotating b) × (s'.admin ≡ some b)) ⊎ (s'.admin ≡ some a))
unfolding apply init require_admin validate_cap validate_min_duration set_admin set_stream_contract
    set_cap set_min_duration set_allowlist write_allowlist set_batch_cap_enforcement set_rate_bounds
    set_factory_paused
apply-signed h (initializing c d m x) s s' a i e = ground arith
apply-signed h (rotating b) s s' a i e = (ground arith, inl (b, refl, ground arith))
apply-signed h (routing c) s s' a i e = (ground arith, inr (ground arith))
apply-signed h (capping d) s s' a i e = (ground arith, inr (ground arith))
apply-signed h (lasting m) s s' a i e = (ground arith, inr (ground arith))
apply-signed h (listing r true) s s' a i e = (ground arith, inr (ground arith))
apply-signed h (listing r false) s s' a i e = (ground arith, inr (ground arith))
apply-signed h (enforcing b) s s' a i e = (ground arith, inr (ground arith))
apply-signed h (bounding lo hi) s s' a i e = (ground arith, inr (ground arith))
apply-signed h (pausing b) s s' a i e = (ground arith, inr (ground arith))
