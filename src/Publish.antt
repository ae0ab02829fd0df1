-- ===== src/Publish.antt =====
-- The functions of contracts/stream/src/events.rs: each publishes one event. `withdrawn` and
-- `topped_up` skip an amount of zero and panic on a negative one.
use fluxora_contracts.Base.{ℕ, ℤ, pos, Option, ltb_ℤ, eqb_ℤ, if◌then◌else◌}
use fluxora_contracts.Errors.{trap}
use fluxora_contracts.Types.{Address, Stream}
use fluxora_contracts.Events.{
  created, withdrew, cancelled, paused, resumed, topped_up, transferred, granted, revoked, extended,
  operator_set, halted, unhalted,
}
use fluxora_contracts.Host.{Call, pure, publish}

module _ {L : Type 0} where
  unfoldable pub panic : Call L Unit
  panic w = trap

  unfoldable pub stream_created : ℕ → Stream → Call L Unit
  unfolding publish
  stream_created stream_id s = publish (
      created record {
        stream_id = stream_id;
        sender = s.sender;
        recipient = s.recipient;
        token = s.token;
        deposited = s.deposited;
        start_time = s.start_time;
        end_time = s.end_time;
        cliff_time = s.cliff_time;
        cancellable = s.cancellable;
        pausable = s.pausable;
        transferable = s.transferable;
        curve = s.curve;
        cliff_mode = s.cliff_mode;
        reference = s.reference;
      })

  unfoldable pub withdrawn_event : ℕ → Stream → ℤ → Call L Unit
  unfolding publish
  withdrawn_event stream_id s amount =
      if eqb_ℤ amount (pos 0)
      then pure tt
      else if ltb_ℤ (pos 0) amount
      then publish (
          withdrew record {
            stream_id = stream_id;
            recipient = s.recipient;
            amount = amount;
            withdrawn = s.withdrawn;
            deposited = s.deposited;
            status = s.status;
            sender = s.sender;
            paused_at = s.paused_at;
            paused_total = s.paused_total;
          })
      else panic

  unfoldable pub cancelled_event : ℕ → Stream → ℤ → Call L Unit
  unfolding publish
  cancelled_event stream_id s refunded = publish (
      cancelled record {
        stream_id = stream_id;
        sender = s.sender;
        recipient = s.recipient;
        refunded = refunded;
        vested = s.deposited;
        withdrawn = s.withdrawn;
        end_time = s.end_time;
        paused_at = s.paused_at;
        paused_total = s.paused_total;
      })

  unfoldable pub paused_event : ℕ → Stream → ℕ → Call L Unit
  unfolding publish
  paused_event stream_id s paused_at = publish (
      paused record {
        stream_id = stream_id;
        sender = s.sender;
        paused_at = paused_at;
        paused_total = s.paused_total;
        recipient = s.recipient;
      })

  unfoldable pub resumed_event : ℕ → Stream → ℕ → Call L Unit
  unfolding publish
  resumed_event stream_id s paused_duration = publish (
      resumed record {
        stream_id = stream_id;
        sender = s.sender;
        paused_duration = paused_duration;
        paused_total = s.paused_total;
        recipient = s.recipient;
      })

  unfoldable pub topped_up_event : ℕ → Stream → ℤ → Call L Unit
  unfolding publish
  topped_up_event stream_id s amount =
      if eqb_ℤ amount (pos 0)
      then pure tt
      else if ltb_ℤ (pos 0) amount
      then publish (
          topped_up record {
            stream_id = stream_id;
            sender = s.sender;
            amount = amount;
            deposited = s.deposited;
            end_time = s.end_time;
            recipient = s.recipient;
          })
      else panic

  unfoldable pub recipient_transferred : ℕ → Address → Address → Address → Call L Unit
  unfolding publish
  recipient_transferred stream_id sender old_recipient new_recipient = publish (
      transferred record {
        stream_id = stream_id;
        old_recipient = old_recipient;
        new_recipient = new_recipient;
        sender = sender;
      })

  unfoldable pub ttl_extended : ℕ → ℕ → Call L Unit
  unfolding publish
  ttl_extended stream_id ledgers =
      publish (extended record { stream_id = stream_id; extended_to_ledgers = ledgers })

  unfoldable pub delegate_granted : ℕ → Address → Address → ℕ → Option ℕ → Call L Unit
  unfolding publish
  delegate_granted stream_id grantor delegate ops expires_at = publish (
      granted record {
        stream_id = stream_id;
        grantor = grantor;
        delegate = delegate;
        ops = ops;
        expires_at = expires_at;
      })

  unfoldable pub delegate_revoked : ℕ → Address → Address → Call L Unit
  unfolding publish
  delegate_revoked stream_id grantor delegate =
      publish (revoked record { stream_id = stream_id; grantor = grantor; delegate = delegate })

  unfoldable pub halt_operator_set : Address → Call L Unit
  unfolding publish
  halt_operator_set operator = publish (operator_set operator)

  unfoldable pub contract_halted : Address → ℕ → Call L Unit
  unfolding publish
  contract_halted operator halted_at =
      publish (halted record { operator = operator; halted_at = halted_at })

  unfoldable pub contract_resumed : Address → ℕ → ℕ → Call L Unit
  unfolding publish
  contract_resumed operator resumed_at halted_for =
      publish
        (unhalted record { operator = operator; resumed_at = resumed_at; halted_for = halted_for })
