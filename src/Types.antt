-- ===== src/Types.antt =====
-- The data of the stream contract (contracts/stream/src/types.rs). An `Address` is a number: the
-- contract only compares addresses. A reference string is its list of bytes.
use fluxora_contracts.Base.{ℕ, ℤ, Option, none, some, Bool, true, false, List}

abbrev pub Address : Type 0
Address = ℕ

abbrev pub max_reference_length : ℕ
max_reference_length = 64

-- `mod op`: the bits of a delegate's permissions.
abbrev pub op_withdraw : ℕ
op_withdraw = 1

abbrev pub op_cancel : ℕ
op_cancel = 2

abbrev pub op_pause : ℕ
op_pause = 4

abbrev pub op_resume : ℕ
op_resume = 8

abbrev pub op_top_up : ℕ
op_top_up = 16

abbrev pub op_transfer_recipient : ℕ
op_transfer_recipient = 32

pub record DelegateGrant : Type 0 where
  pub ops : ℕ
  pub expires_at : Option ℕ

pub record BatchCancelOutcome : Type 0 where
  pub refunded : ℤ
  pub refused_index : Option ℕ
  pub refused_reason : Option ℕ

pub data StreamStatus : Type 0 where
  active paused cancelled depleted : StreamStatus

unfoldable pub is_terminal : StreamStatus → Bool
is_terminal cancelled = true
is_terminal depleted = true
is_terminal active = false
is_terminal paused = false

pub data ReleaseCurve : Type 0 where
  linear step front_loaded : ReleaseCurve

pub data CliffMode : Type 0 where
  schedule wall_clock : CliffMode

-- `CliffMode::DEFAULT`
abbrev pub default_cliff_mode : CliffMode
default_cliff_mode = schedule

-- The derived `PartialEq` of the three enumerations.
abbrev pub is_paused : StreamStatus → Bool
is_paused paused = true
is_paused _ = false

abbrev pub is_cancelled : StreamStatus → Bool
is_cancelled cancelled = true
is_cancelled _ = false

abbrev pub is_depleted : StreamStatus → Bool
is_depleted depleted = true
is_depleted _ = false

abbrev pub is_linear : ReleaseCurve → Bool
is_linear linear = true
is_linear _ = false

abbrev pub is_default : CliffMode → Bool
is_default schedule = true
is_default wall_clock = false

abbrev pub is_some {ℓ} : {A : Type ℓ} → Option A → Bool
is_some none = false
is_some (some a) = true

pub record Stream : Type 0 where
  pub sender : Address
  pub recipient : Address
  pub token : Address
  pub deposited : ℤ
  pub withdrawn : ℤ
  pub start_time : ℕ
  pub end_time : ℕ
  pub cliff_time : ℕ
  pub cliff_mode : CliffMode
  pub cancellable : Bool
  pub pausable : Bool
  pub transferable : Bool
  pub paused_at : Option ℕ
  pub paused_total : ℕ
  pub status : StreamStatus
  pub curve : ReleaseCurve
  pub reference : Option (List ℕ)

-- The stored form, without the fields that later versions added.
pub record StreamRecord : Type 0 where
  pub sender : Address
  pub recipient : Address
  pub token : Address
  pub deposited : ℤ
  pub withdrawn : ℤ
  pub start_time : ℕ
  pub end_time : ℕ
  pub cliff_time : ℕ
  pub cancellable : Bool
  pub pausable : Bool
  pub transferable : Bool
  pub paused_at : Option ℕ
  pub paused_total : ℕ
  pub status : StreamStatus

pub record StreamMetadata : Type 0 where
  pub cliff_mode : CliffMode
  pub reference : Option (List ℕ)

pub record BatchCreateRequest : Type 0 where
  pub recipient : Address
  pub token : Address
  pub deposit : ℤ
  pub start_time : ℕ
  pub end_time : ℕ
  pub cliff_time : ℕ
  pub cancellable : Bool
  pub pausable : Bool
  pub transferable : Bool

unfoldable pub from_stream : Stream → StreamRecord
from_stream s = record {
  sender = s.sender;
  recipient = s.recipient;
  token = s.token;
  deposited = s.deposited;
  withdrawn = s.withdrawn;
  start_time = s.start_time;
  end_time = s.end_time;
  cliff_time = s.cliff_time;
  cancellable = s.cancellable;
  pausable = s.pausable;
  transferable = s.transferable;
  paused_at = s.paused_at;
  paused_total = s.paused_total;
  status = s.status;
}

unfoldable pub into_stream : StreamRecord → ReleaseCurve → Stream
into_stream r curve = record {
  sender = r.sender;
  recipient = r.recipient;
  token = r.token;
  deposited = r.deposited;
  withdrawn = r.withdrawn;
  start_time = r.start_time;
  end_time = r.end_time;
  cliff_time = r.cliff_time;
  cliff_mode = default_cliff_mode;
  cancellable = r.cancellable;
  pausable = r.pausable;
  transferable = r.transferable;
  paused_at = r.paused_at;
  paused_total = r.paused_total;
  status = r.status;
  curve = curve;
  reference = none;
}
