-- ===== src/Contract/Halt/Refusal.antt =====
-- The entry points while the halt is engaged.
use fluxora_contracts.Base.{◌≡◌, true, arith}
use fluxora_contracts.Errors.{err, contract_halted}
use fluxora_contracts.Host.{Env, World, Call, pure, gets, reject_if, ◌>>=◌, ◌>>◌}
use fluxora_contracts.Storage.{is_halted}
use fluxora_contracts.Contract.Guards.{require_not_halted}
use fluxora_contracts.Contract.Create.{
  create_stream, create_stream_with_cliff_mode, create_stream_with_curve,
}
use fluxora_contracts.Contract.Create.{batch_create, create_stream_via_factory}
use fluxora_contracts.Contract.Withdraw.{batch_withdraw}
use fluxora_contracts.Contract.Delegates.{grant_delegate, revoke_delegate}
use fluxora_contracts.Contract.Maintenance.{extend_stream_ttl, batch_extend_ttl}
use fluxora_contracts.Contract.TopUp.{top_up}
use fluxora_contracts.Contract.Withdraw.{withdraw}
use fluxora_contracts.Contract.Cancel.{cancel}
use fluxora_contracts.Contract.Pause.{pause, resume}
use fluxora_contracts.Contract.Transfer.{transfer_recipient}
use fluxora_contracts.Contract.Delegates.{
  delegate_withdraw, delegate_cancel, delegate_pause, delegate_resume, delegate_transfer_recipient,
}
use fluxora_contracts.Contract.Keeps.Reachable.{
  is_guarded, creating_batch, creating_via_factory, withdrawing_batch, granting, revoking,
  extending, extending_batch, cancelling_batch, reclaiming, setting_operator, halting, lifting_halt,
  Operation, perform, creating, creating_with_cliff_mode, creating_with_curve, topping_up,
  withdrawing, cancelling, pausing, resuming, transferring, delegate_withdrawing,
  delegate_cancelling, delegate_pausing, delegate_resuming, delegate_transferring,
}

module _ {L : Type 0} where
  guarded :
      {A : Type 0} (k : Call L A) (w : World L)
      → is_halted w ≡ true
      → (require_not_halted >> k) w ≡ err contract_halted
  unfolding require_not_halted ◌>>=◌ gets reject_if
  guarded k w h = ground arith

  dropped :
      {A : Type 0} (m : Call L A) (w : World L)
      → m w ≡ err contract_halted
      → (m >>= λ _. pure tt) w ≡ err contract_halted
  unfolding ◌>>=◌
  dropped m w h = ground arith

  -- While the contract is halted, every operation of `Operation` except batch_cancel, reclaim_dust
  -- and the three that manage the halt fails with `contract_halted`, whatever their arguments, the
  -- signatures and the rest of the state.
  pub perform-halted :
      (e : Env L) (op : Operation) (w : World L)
      → is_guarded op ≡ true
      → is_halted w ≡ true
      → perform e op w ≡ err contract_halted
  unfolding batch_create create_stream_via_factory batch_withdraw grant_delegate revoke_delegate
      extend_stream_ttl batch_extend_ttl perform create_stream create_stream_with_cliff_mode
      create_stream_with_curve top_up withdraw cancel pause resume transfer_recipient
      delegate_withdraw delegate_cancel delegate_pause delegate_resume delegate_transfer_recipient
  perform-halted e (creating sender t) w g h = dropped _ w (guarded _ w h)
  perform-halted e (creating_with_cliff_mode sender t) w g h = dropped _ w (guarded _ w h)
  perform-halted e (creating_with_curve sender t) w g h = dropped _ w (guarded _ w h)
  perform-halted e (topping_up i amount) w g h = guarded _ w h
  perform-halted e (withdrawing i amount) w g h = dropped _ w (guarded _ w h)
  perform-halted e (cancelling i) w g h = guarded _ w h
  perform-halted e (pausing i) w g h = guarded _ w h
  perform-halted e (resuming i) w g h = guarded _ w h
  perform-halted e (transferring i r) w g h = guarded _ w h
  perform-halted e (delegate_withdrawing i d amount) w g h = dropped _ w (guarded _ w h)
  perform-halted e (delegate_cancelling i d) w g h = guarded _ w h
  perform-halted e (delegate_pausing i d) w g h = guarded _ w h
  perform-halted e (delegate_resuming i d) w g h = guarded _ w h
  perform-halted e (delegate_transferring i d r) w g h = guarded _ w h
  perform-halted e (creating_batch sender rs) w g h = dropped _ w (guarded _ w h)
  perform-halted e (creating_via_factory f sender t) w g h = dropped _ w (guarded _ w h)
  perform-halted e (withdrawing_batch recipient ids) w g h = dropped _ w (guarded _ w h)
  perform-halted e (granting i grantor d ops x) w g h = guarded _ w h
  perform-halted e (revoking i grantor d) w g h = guarded _ w h
  perform-halted e (extending i) w g h = dropped _ w (guarded _ w h)
  perform-halted e (extending_batch ids) w g h = dropped _ w (guarded _ w h)
  perform-halted e (cancelling_batch sender ids) w g h = cc
  perform-halted e (reclaiming i) w g h = cc
  perform-halted e (setting_operator a) w g h = cc
  perform-halted e halting w g h = cc
  perform-halted e lifting_halt w g h = cc
