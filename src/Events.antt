-- ===== src/Events.antt =====
-- The events that the stream contract publishes (contracts/stream/src/events.rs), with the source's
-- fields, topics first.
use fluxora_contracts.Base.{ℕ, ℤ, Option, Bool, List}
use fluxora_contracts.Types.{Address, StreamStatus, ReleaseCurve, CliffMode}

pub record StreamCreated : Type 0 where
  pub stream_id : ℕ
  pub sender : Address
  pub recipient : Address
  pub token : Address
  pub deposited : ℤ
  pub start_time : ℕ
  pub end_time : ℕ
  pub cliff_time : ℕ
  pub cancellable : Bool
  pub pausable : Bool
  pub transferable : Bool
  pub curve : ReleaseCurve
  pub cliff_mode : CliffMode
  pub reference : Option (List ℕ)

pub record Withdrawn : Type 0 where
  pub stream_id : ℕ
  pub recipient : Address
  pub amount : ℤ
  pub withdrawn : ℤ
  pub deposited : ℤ
  pub status : StreamStatus
  pub sender : Address
  pub paused_at : Option ℕ
  pub paused_total : ℕ

pub record Cancelled : Type 0 where
  pub stream_id : ℕ
  pub sender : Address
  pub recipient : Address
  pub refunded : ℤ
  pub vested : ℤ
  pub withdrawn : ℤ
  pub end_time : ℕ
  pub paused_at : Option ℕ
  pub paused_total : ℕ

pub record Paused : Type 0 where
  pub stream_id : ℕ
  pub sender : Address
  pub paused_at : ℕ
  pub paused_total : ℕ
  pub recipient : Address

pub record Resumed : Type 0 where
  pub stream_id : ℕ
  pub sender : Address
  pub paused_duration : ℕ
  pub paused_total : ℕ
  pub recipient : Address

pub record ToppedUp : Type 0 where
  pub stream_id : ℕ
  pub sender : Address
  pub amount : ℤ
  pub deposited : ℤ
  pub end_time : ℕ
  pub recipient : Address

pub record RecipientTransferred : Type 0 where
  pub stream_id : ℕ
  pub old_recipient : Address
  pub new_recipient : Address
  pub sender : Address

pub record DelegateGranted : Type 0 where
  pub stream_id : ℕ
  pub grantor : Address
  pub delegate : Address
  pub ops : ℕ
  pub expires_at : Option ℕ

pub record DelegateRevoked : Type 0 where
  pub stream_id : ℕ
  pub grantor : Address
  pub delegate : Address

pub record TtlExtended : Type 0 where
  pub stream_id : ℕ
  pub extended_to_ledgers : ℕ

pub record ContractHalted : Type 0 where
  pub operator : Address
  pub halted_at : ℕ

pub record ContractResumed : Type 0 where
  pub operator : Address
  pub resumed_at : ℕ
  pub halted_for : ℕ

pub data Event : Type 0 where
  created : StreamCreated → Event
  withdrew : Withdrawn → Event
  cancelled : Cancelled → Event
  paused : Paused → Event
  resumed : Resumed → Event
  topped_up : ToppedUp → Event
  transferred : RecipientTransferred → Event
  granted : DelegateGranted → Event
  revoked : DelegateRevoked → Event
  extended : TtlExtended → Event
  operator_set : Address → Event
  halted : ContractHalted → Event
  unhalted : ContractResumed → Event
