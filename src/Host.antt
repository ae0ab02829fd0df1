-- ===== src/Host.antt =====
-- What the Soroban host gives a call of the contract: the ledger's time, the authorizations, the
-- storage, the token contracts, the events and the rent requests. The tokens and the factory are
-- other contracts: `Token` and `factory` are parameters of the model.
use fluxora_contracts.Base.{
  ℕ, ℤ, Option, none, some, Bool, true, false, List, [], ◌∷◌, ◌++◌, ◌==◌, if◌then◌else◌,
}
use fluxora_contracts.Errors.{Error, Result, ok, err, trap}
use fluxora_contracts.Events.{Event}
use fluxora_contracts.Types.{Address, StreamRecord, StreamMetadata, ReleaseCurve, DelegateGrant}

-- How `try_transfer` of a token contract can end: `Ok(Ok(()))` with the token's new state, and the
-- four failures that the contract tells apart.
pub data TransferReply (L : Type 0) : Type 0 where
  ok_ok : L → TransferReply L
  ok_err err_ok err_contract err_abort : TransferReply L

-- The SEP-41 interface of the token contracts, over the state `L` of all of them. `balance` is `none`
-- where the call traps.
pub record Token (L : Type 0) : Type 0 where
  pub balance : L → Address → Address → Option ℤ
  pub try_transfer : L → Address → Address → Address → ℤ → TransferReply L

-- What `get_factory_config` of a factory contract answers.
pub record FactoryConfig : Type 0 where
  pub admin : Address
  pub stream_contract : Address
  pub max_deposit : ℤ
  pub min_duration : ℕ
  pub batch_cap_enforced : Bool
  pub creation_paused : Bool
  pub min_rate_per_second : Option ℤ
  pub max_rate_per_second : Option ℤ

-- The views that the contract calls on a factory; `none` where the call traps.
pub record Factory : Type 0 where
  pub get_factory_config : Address → Option FactoryConfig
  pub is_allowlisted : Address → Address → Option Bool

-- What does not change during a call.
pub record Env (L : Type 0) : Type 0 where
  pub now : ℕ
  pub contract : Address
  pub max_ttl : ℕ
  pub authorized : Address → Bool
  pub token : Token L
  pub factory : Factory

-- A call of `extend_ttl` with its target, in ledgers.
pub data Rent : Type 0 where
  instance_rent : ℕ → Rent
  stream_rent curve_rent metadata_rent : ℕ → ℕ → Rent
  delegate_rent : ℕ → Address → ℕ → Rent

-- What a call can change, one field for each `DataKey` that the contract reads or writes.
pub record World (L : Type 0) : Type 0 where
  pub next_stream_id : Option ℕ
  pub stream_count : Option ℕ
  pub pooled : Address → Option ℤ
  pub streams : ℕ → Option StreamRecord
  pub delegates : ℕ → Address → Option DelegateGrant
  pub curves : ℕ → Option ReleaseCurve
  pub metadata : ℕ → Option StreamMetadata
  pub operator : Option Address
  pub halted_at : Option ℕ
  pub ledger : L
  pub events : List Event
  pub rents : List Rent

-- A write of one key of a map.
abbrev pub update {ℓ} : {V : Type ℓ} → (ℕ → V) → ℕ → V → ℕ → V
update f k v j = if k == j then v else f j

-- A call that may fail. An error or a trap rolls every change back, so it carries no world.
abbrev pub Call : Type 0 → Type 0 → Type 0
Call L A = World L → Result (A × World L)

module _ {L : Type 0} {A : Type 0} where
  unfoldable pub pure : A → Call L A
  pure a w = ok (a, w)

  unfoldable pub fail : Error → Call L A
  fail e w = err e

  unfoldable pub lift : Result A → Call L A
  lift (ok a) w = ok (a, w)
  lift (err e) w = err e
  lift trap w = trap

  unfoldable pub gets : (World L → A) → Call L A
  gets f w = ok (f w, w)

  -- `option.ok_or(error)?`
  unfoldable pub ok_or : Option A → Error → Call L A
  ok_or none e w = err e
  ok_or (some a) e w = ok (a, w)

  -- `option.unwrap()`, and a host call that traps
  unfoldable pub unwrap : Option A → Call L A
  unwrap none w = trap
  unwrap (some a) w = ok (a, w)

  abbrev pub continue : {B : Type 0} → Result (A × World L) → (A → Call L B) → Result (B × World L)
  continue (ok (a, w)) f = f a w
  continue (err e) f = err e
  continue trap f = trap

infixl 5 ◌>>=◌ ◌>>◌
unfoldable pub ◌>>=◌ : {L A B : Type 0} → Call L A → (A → Call L B) → Call L B
◌>>=◌ m f w = continue (m w) f

abbrev pub ◌>>◌ : {L B : Type 0} → Call L Unit → Call L B → Call L B
m >> k = m >>= λ _. k

module _ {L : Type 0} where
  unfoldable pub reject_if : Bool → Error → Call L Unit
  reject_if true e w = err e
  reject_if false e w = ok (tt, w)

  unfoldable pub when : Bool → Call L Unit → Call L Unit
  when true m w = m w
  when false m w = ok (tt, w)

  unfoldable pub modify : (World L → World L) → Call L Unit
  modify f w = ok (tt, f w)

  -- `address.require_auth()` traps where the call is not authorized.
  unfoldable pub require_auth : Env L → Address → Call L Unit
  require_auth e a w = if e.authorized a then ok (tt, w) else trap

  unfoldable pub publish : Event → Call L Unit
  publish v w = ok (tt, record w { events = w.events ++ v ∷ [] })

  unfoldable pub rent : Rent → Call L Unit
  rent r w = ok (tt, record w { rents = w.rents ++ r ∷ [] })
