-- ===== src/Contract/Pool/Operations.antt =====
-- The streams and the pools under one call of `Operation`, which leaves out `delegate_top_up`.
use fluxora_contracts.Types.{Address}
use fluxora_contracts.Host.{Env}
use fluxora_contracts.Transition.Create.{StreamTerms}
use fluxora_contracts.Contract.Triple.{Keeps}
use fluxora_contracts.Contract.Book.{Over}
use fluxora_contracts.Contract.Create.{create_stream_inner}
use fluxora_contracts.Contract.Keeps.Creation.{
  create_stream-Keeps, create_stream_with_cliff_mode-Keeps, create_stream_with_curve-Keeps,
  batch_create-Keeps, create_stream_via_factory-Keeps,
}
use fluxora_contracts.Contract.Keeps.Aside.{
  grant_delegate-Keeps, revoke_delegate-Keeps, set_halt_operator-Keeps, halt-Keeps,
  resume_contract-Keeps, extend_stream_ttl-Keeps, batch_extend_ttl-Keeps,
}
use fluxora_contracts.Contract.Keeps.Batches.{batch_withdraw-Keeps, batch_cancel-Keeps}
use fluxora_contracts.Contract.Keeps.Dust.{reclaim_dust-Keeps}
use fluxora_contracts.Contract.Keeps.{
  create_stream_inner-Keeps, top_up-Keeps, withdraw-Keeps, cancel-Keeps, pause-Keeps, resume-Keeps,
  transfer_recipient-Keeps,
}
use fluxora_contracts.Contract.Keeps.Delegated.{
  delegate_withdraw-Keeps, delegate_cancel-Keeps, delegate_pause-Keeps, delegate_resume-Keeps,
  delegate_transfer_recipient-Keeps,
}
use fluxora_contracts.Contract.Keeps.Reachable.{
  Operation, perform, dropped, creating, creating_with_cliff_mode, creating_with_curve, topping_up,
  withdrawing, cancelling, pausing, resuming, transferring, delegate_withdrawing,
  delegate_cancelling, delegate_pausing, delegate_resuming, delegate_transferring, creating_batch,
  creating_via_factory, withdrawing_batch, granting, revoking, extending, extending_batch,
  cancelling_batch, reclaiming, setting_operator, halting, lifting_halt,
}
use fluxora_contracts.Contract.Pool.Keeps.{
  Level, Level-again, pause-Settles, resume-Settles, transfer_recipient-Settles, withdraw-Settles,
  cancel-Settles, top_up-Settles,
}
use fluxora_contracts.Contract.Pool.Delegated.{
  delegate_withdraw-Settles, delegate_cancel-Settles, delegate_pause-Settles,
  delegate_resume-Settles, delegate_transfer_recipient-Settles,
}
use fluxora_contracts.Contract.Pool.Created.{create_stream_inner-Settles, reclaim_dust-Settles}
use fluxora_contracts.Contract.Pool.Batches.Payouts.{batch_withdraw-Settles}
use fluxora_contracts.Contract.Pool.Batches.Settlements.{batch_cancel-Settles}

module _ {L : Type 0} where
  inner :
      (e : Env L) (sender : Address) (t : StreamTerms)
      → Keeps (Over (Level e.now)) (create_stream_inner e sender t)
  inner e sender t =
      Level-again e (create_stream_inner-Keeps e sender t) (create_stream_inner-Settles e sender t)

  pub perform-Level : (e : Env L) (op : Operation) → Keeps (Over (Level e.now)) (perform e op)
  unfolding perform
  perform-Level e (creating sender t) = dropped (create_stream-Keeps e sender (inner e sender) t)
  perform-Level e (creating_with_cliff_mode sender t) =
      dropped (create_stream_with_cliff_mode-Keeps e sender (inner e sender) t)
  perform-Level e (creating_with_curve sender t) =
      dropped (create_stream_with_curve-Keeps e sender (inner e sender) t)
  perform-Level e (topping_up i amount) =
      Level-again e (top_up-Keeps e i amount) (top_up-Settles e i amount)
  perform-Level e (withdrawing i amount) =
      dropped (Level-again e (withdraw-Keeps e i amount) (withdraw-Settles e i amount))
  perform-Level e (cancelling i) = Level-again e (cancel-Keeps e i) (cancel-Settles e i)
  perform-Level e (pausing i) = Level-again e (pause-Keeps e i) (pause-Settles e i)
  perform-Level e (resuming i) = Level-again e (resume-Keeps e i) (resume-Settles e i)
  perform-Level e (transferring i r) =
      Level-again e (transfer_recipient-Keeps e i r) (transfer_recipient-Settles e i r)
  perform-Level e (delegate_withdrawing i d amount) = dropped (
      Level-again e (delegate_withdraw-Keeps e i d amount) (delegate_withdraw-Settles e i d amount))
  perform-Level e (delegate_cancelling i d) =
      Level-again e (delegate_cancel-Keeps e i d) (delegate_cancel-Settles e i d)
  perform-Level e (delegate_pausing i d) =
      Level-again e (delegate_pause-Keeps e i d) (delegate_pause-Settles e i d)
  perform-Level e (delegate_resuming i d) =
      Level-again e (delegate_resume-Keeps e i d) (delegate_resume-Settles e i d)
  perform-Level e (delegate_transferring i d r) =
      Level-again e (delegate_transfer_recipient-Keeps e i d r)
        (delegate_transfer_recipient-Settles e i d r)
  perform-Level e (creating_batch sender rs) =
      dropped (batch_create-Keeps e sender (inner e sender) rs)
  perform-Level e (creating_via_factory f sender t) =
      dropped (create_stream_via_factory-Keeps e sender (inner e sender) f t)
  perform-Level e (withdrawing_batch recipient ids) = dropped (
      Level-again e (batch_withdraw-Keeps e recipient ids) (batch_withdraw-Settles e recipient ids))
  perform-Level e (granting i grantor d ops x) = grant_delegate-Keeps e i grantor d ops x
  perform-Level e (revoking i grantor d) = revoke_delegate-Keeps e i grantor d
  perform-Level e (extending i) = dropped (extend_stream_ttl-Keeps e i)
  perform-Level e (extending_batch ids) = dropped (batch_extend_ttl-Keeps e ids)
  perform-Level e (cancelling_batch sender ids) =
      dropped (Level-again e (batch_cancel-Keeps e sender ids) (batch_cancel-Settles e sender ids))
  perform-Level e (reclaiming i) =
      dropped (Level-again e (reclaim_dust-Keeps e i) (reclaim_dust-Settles e i))
  perform-Level e (setting_operator a) = set_halt_operator-Keeps e a
  perform-Level e halting = halt-Keeps e
  perform-Level e lifting_halt = resume_contract-Keeps e
