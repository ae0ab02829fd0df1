-- ===== src/Errors.antt =====
-- The contract's errors (contracts/stream/src/error.rs) with their discriminants, and the outcome of
-- a call: a value, a typed error, or a host trap (a failed authorization, a panic).
use fluxora_contracts.Base.{ℕ, Option, none, some, Bool, true, false, ◌≡◌, refl, ◌⊎◌, inl, inr}

pub data Error : Type 0 where
  stream_not_found invalid_time_range invalid_cliff invalid_deposit deposit_rate_too_low : Error
  self_stream invalid_reference_length unauthorized not_cancellable not_pausable : Error
  not_transferable stream_not_active stream_not_paused stream_already_paused : Error
  stream_terminated stream_matured insufficient_withdrawable nothing_to_withdraw : Error
  invalid_amount batch_too_large empty_batch duplicate_stream_id overflow top_up_too_small : Error
  stream_id_exhausted token_transfer_failed token_missing delegate_not_permitted : Error
  delegate_expired malformed_stream_id repeated_transfer invalid_top_up : Error
  token_amount_mismatch vested_decreased pool_balance_drift contract_halted : Error
  halt_operator_already_set halt_operator_not_set contract_already_halted : Error
  contract_not_halted factory_paused deposit_exceeds_cap duration_below_minimum : Error
  token_not_allowlisted rate_below_min rate_above_max : Error

-- `error as u32`
unfoldable pub discriminant : Error → ℕ
discriminant stream_not_found = 1
discriminant invalid_time_range = 2
discriminant invalid_cliff = 3
discriminant invalid_deposit = 4
discriminant deposit_rate_too_low = 5
discriminant self_stream = 6
discriminant invalid_reference_length = 40
discriminant unauthorized = 7
discriminant not_cancellable = 8
discriminant not_pausable = 9
discriminant not_transferable = 10
discriminant stream_not_active = 11
discriminant stream_not_paused = 12
discriminant stream_already_paused = 13
discriminant stream_terminated = 14
discriminant stream_matured = 15
discriminant insufficient_withdrawable = 16
discriminant nothing_to_withdraw = 17
discriminant invalid_amount = 18
discriminant batch_too_large = 19
discriminant empty_batch = 20
discriminant duplicate_stream_id = 21
discriminant overflow = 22
discriminant top_up_too_small = 23
discriminant stream_id_exhausted = 24
discriminant token_transfer_failed = 25
discriminant token_missing = 26
discriminant delegate_not_permitted = 27
discriminant delegate_expired = 28
discriminant malformed_stream_id = 29
discriminant repeated_transfer = 30
discriminant invalid_top_up = 31
discriminant token_amount_mismatch = 32
discriminant vested_decreased = 33
discriminant pool_balance_drift = 39
discriminant contract_halted = 34
discriminant halt_operator_already_set = 35
discriminant halt_operator_not_set = 36
discriminant contract_already_halted = 37
discriminant contract_not_halted = 38
discriminant factory_paused = 41
discriminant deposit_exceeds_cap = 42
discriminant duration_below_minimum = 43
discriminant token_not_allowlisted = 44
discriminant rate_below_min = 45
discriminant rate_above_max = 46

-- How a call ends: with an answer, with an error of the contract, or with a trap of the host.
pub data Result (A : Type 0) : Type 0 where
  ok : (answer : A) → Result A
  err : (reason : Error) → Result A
  trap : Result A

-- The outcome of a check: it passes, or it refuses.
abbrev pub Check : Type 0
Check = Result Unit

module _ {B : Type 0} where
  infixl 5 ◌>>=◌ ◌>>◌
  -- The operator `?`: what fails is passed on.
  abbrev pub ◌>>=◌ : {A : Type 0} → Result A → (A → Result B) → Result B
  trap >>= next = trap
  err reason >>= next = err reason
  ok answer >>= next = next answer

  abbrev pub ◌>>◌ : Check → Result B → Result B
  check >> next = check >>= λ done. next

-- `option.ok_or(error)?`
abbrev pub ok_or : {A : Type 0} → Option A → Error → Result A
ok_or none e = err e
ok_or (some a) e = ok a

-- `if test { return Err(error); }`
abbrev pub reject_if : Bool → Error → Check
reject_if true e = err e
reject_if false e = ok tt

pub Result-cases :
    {A : Type 0} (r : Result A)
    → ((a : A) × (r ≡ ok a)) ⊎ (((e : Error) × (r ≡ err e)) ⊎ (r ≡ trap))
Result-cases (ok a) = inl (a, refl)
Result-cases (err e) = inr (inl (e, refl))
Result-cases trap = inr (inr refl)
