-- ===== src/Transition/Create.antt =====
-- The checks of a creation and the new stream. The arguments of the creation functions are grouped
-- in one record.
use fluxora_contracts.Base.{
  ℕ, ◌-◌, suc, ℤ, pos, ◌/ℤ◌, ltb, leb, ltb_ℤ, leb_ℤ, ◌==◌, if◌then◌else◌, Bool, false, ◌||◌, Option,
  none, some, List, [], ◌∷◌, checked_mul,
}
use fluxora_contracts.Errors.{
  Check, ok, ok_or, reject_if, ◌>>=◌, ◌>>◌, self_stream, invalid_deposit, invalid_time_range,
  invalid_cliff, invalid_reference_length, deposit_rate_too_low, overflow, factory_paused,
  deposit_exceeds_cap, duration_below_minimum, rate_below_min, rate_above_max,
}
use fluxora_contracts.Types.{
  Address, Stream, CliffMode, default_cliff_mode, ReleaseCurve, linear, active, BatchCreateRequest,
  max_reference_length,
}
use fluxora_contracts.Host.{FactoryConfig}

-- The arguments of a creation.
pub record StreamTerms : Type 0 where
  pub recipient : Address
  pub token : Address
  pub deposit : ℤ
  pub start_time : ℕ
  pub end_time : ℕ
  pub cliff_time : ℕ
  pub cliff_mode : CliffMode
  pub cancellable : Bool
  pub pausable : Bool
  pub transferable : Bool
  pub reference : Option (List ℕ)
  pub curve : ReleaseCurve

abbrev length {ℓ} : {A : Type ℓ} → List A → ℕ
length [] = 0
length (x ∷ xs) = suc (length xs)

abbrev reference_too_long : Option (List ℕ) → Bool
reference_too_long none = false
reference_too_long (some r) = ltb max_reference_length (length r)

unfoldable pub check_terms : Address → StreamTerms → Check
check_terms sender t = do
  reject_if (sender == t.recipient) self_stream
  reject_if (leb_ℤ t.deposit (pos 0)) invalid_deposit
  reject_if (leb t.end_time t.start_time) invalid_time_range
  reject_if (ltb t.cliff_time t.start_time || ltb t.end_time t.cliff_time) invalid_cliff
  reject_if (reference_too_long t.reference) invalid_reference_length
  let total_duration = t.end_time - t.start_time
  reject_if (ltb_ℤ t.deposit (pos total_duration)) deposit_rate_too_low
  product ← ok_or (checked_mul t.deposit (pos total_duration)) overflow
  ok tt

unfoldable pub new_stream : Address → StreamTerms → Stream
new_stream sender t = record {
  sender = sender;
  recipient = t.recipient;
  token = t.token;
  deposited = t.deposit;
  withdrawn = pos 0;
  start_time = t.start_time;
  end_time = t.end_time;
  cliff_time = t.cliff_time;
  cliff_mode = t.cliff_mode;
  cancellable = t.cancellable;
  pausable = t.pausable;
  transferable = t.transferable;
  paused_at = none;
  paused_total = 0;
  status = active;
  curve = t.curve;
  reference = t.reference;
}

unfoldable pub request_terms : BatchCreateRequest → StreamTerms
request_terms r = record {
  recipient = r.recipient;
  token = r.token;
  deposit = r.deposit;
  start_time = r.start_time;
  end_time = r.end_time;
  cliff_time = r.cliff_time;
  cliff_mode = default_cliff_mode;
  cancellable = r.cancellable;
  pausable = r.pausable;
  transferable = r.transferable;
  reference = none;
  curve = linear;
}

-- The checks that `batch_create` makes of one request before the first token call.
unfoldable pub check_request : Address → BatchCreateRequest → Check
check_request sender r = do
  reject_if (r.recipient == sender) self_stream
  reject_if (leb_ℤ r.deposit (pos 0)) invalid_deposit
  reject_if (leb r.end_time r.start_time) invalid_time_range
  reject_if (ltb r.cliff_time r.start_time || ltb r.end_time r.cliff_time) invalid_cliff
  reject_if (ltb_ℤ r.deposit (pos (r.end_time - r.start_time))) deposit_rate_too_low

unfoldable pub check_requests : Address → List BatchCreateRequest → Check
check_requests sender [] = ok tt
check_requests sender (r ∷ rs) = do check_request sender r; check_requests sender rs

abbrev below_min : ℤ → Option ℤ → Bool
below_min rate none = false
below_min rate (some min_rate) = ltb_ℤ rate min_rate

abbrev above_max : ℤ → Option ℤ → Bool
above_max rate none = false
above_max rate (some max_rate) = ltb_ℤ max_rate rate

unfoldable pub check_rate : FactoryConfig → ℤ → Check
check_rate c rate = do
  reject_if (below_min rate c.min_rate_per_second) rate_below_min
  reject_if (above_max rate c.max_rate_per_second) rate_above_max

-- The factory's policy, as `create_stream_via_factory` applies it before the allowlist. A range or a
-- deposit that is not positive is left to `check_terms`.
unfoldable pub check_policy : FactoryConfig → StreamTerms → Check
check_policy c t = do
  reject_if c.creation_paused factory_paused
  reject_if (ltb_ℤ c.max_deposit t.deposit) deposit_exceeds_cap
  if leb t.end_time t.start_time then ok tt else do
    let duration = t.end_time - t.start_time
    reject_if (ltb duration c.min_duration) duration_below_minimum
    if ltb_ℤ (pos 0) t.deposit then check_rate c (t.deposit /ℤ pos duration) else ok tt
