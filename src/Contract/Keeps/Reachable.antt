-- ===== src/Contract/Keeps/Reachable.antt =====
-- The calls of the entry points other than `delegate_top_up`, and the worlds that sequences of them reach
-- over time.
use fluxora_contracts.Base.{◌-◌, pos, pos_part, ◌≤ℤ◌, ℕ, ℤ, ◌≡◌, ◌≤◌, Option, none, some, arith}
use fluxora_contracts.Errors.{ok}
use fluxora_contracts.Types.{Address, Stream}
use fluxora_contracts.Host.{Env, World, Call, pure, ◌>>=◌}
use fluxora_contracts.Storage.{find_stream}
use fluxora_contracts.Transition.Create.{StreamTerms}
use fluxora_contracts.Accrual.{vested, withdrawable}
use fluxora_contracts.Accrual.Bounds.{neg_part_zero}
use fluxora_contracts.Transition.Invariant.{
  IsWellFormed, IsWellFormed-later, vested_amount, vested-eq, vested_amount-le,
}
use fluxora_contracts.Transition.Withdraw.Keeps.{withdrawable-eq}
use fluxora_contracts.Contract.Frame.{all_streams, every_stream}
use fluxora_contracts.Contract.Triple.{Keeps, Triple-bind, Triple-pure}
use fluxora_contracts.Contract.Create.{
  create_stream, create_stream_with_cliff_mode, create_stream_with_curve,
}
use fluxora_contracts.Types.{BatchCreateRequest}
use fluxora_contracts.Base.{List, Bool, true, false}
use fluxora_contracts.Contract.Create.{batch_create, create_stream_via_factory}
use fluxora_contracts.Contract.Withdraw.{batch_withdraw}
use fluxora_contracts.Contract.Cancel.{batch_cancel, reclaim_dust}
use fluxora_contracts.Contract.Delegates.{grant_delegate, revoke_delegate}
use fluxora_contracts.Contract.Maintenance.{extend_stream_ttl, batch_extend_ttl}
use fluxora_contracts.Contract.Halt.{set_halt_operator, halt, resume_contract}
use fluxora_contracts.Contract.Keeps.Aside.{
  grant_delegate-Keeps, revoke_delegate-Keeps, set_halt_operator-Keeps, halt-Keeps,
  resume_contract-Keeps, extend_stream_ttl-Keeps, batch_extend_ttl-Keeps,
}
use fluxora_contracts.Contract.Keeps.Creation.{
  create_stream-Keeps, create_stream_with_cliff_mode-Keeps, create_stream_with_curve-Keeps,
  batch_create-Keeps, create_stream_via_factory-Keeps,
}
use fluxora_contracts.Contract.Keeps.Batches.{batch_withdraw-Keeps, batch_cancel-Keeps}
use fluxora_contracts.Contract.Keeps.Dust.{reclaim_dust-Keeps}
use fluxora_contracts.Contract.TopUp.{top_up}
use fluxora_contracts.Contract.Withdraw.{withdraw}
use fluxora_contracts.Contract.Cancel.{cancel}
use fluxora_contracts.Contract.Pause.{pause, resume}
use fluxora_contracts.Contract.Transfer.{transfer_recipient}
use fluxora_contracts.Contract.Delegates.{
  delegate_withdraw, delegate_cancel, delegate_pause, delegate_resume, delegate_transfer_recipient,
}
use fluxora_contracts.Contract.Keeps.{
  AllWellFormed, create_stream_inner-Keeps, top_up-Keeps, withdraw-Keeps, cancel-Keeps, pause-Keeps,
  resume-Keeps, transfer_recipient-Keeps,
}
use fluxora_contracts.Contract.Keeps.Delegated.{
  delegate_withdraw-Keeps, delegate_cancel-Keeps, delegate_pause-Keeps, delegate_resume-Keeps,
  delegate_transfer_recipient-Keeps,
}

-- A call of an entry point, with its arguments.
pub data Operation : Type 0 where
  creating creating_with_cliff_mode creating_with_curve : Address → StreamTerms → Operation
  topping_up : ℕ → ℤ → Operation
  withdrawing : ℕ → Option ℤ → Operation
  cancelling pausing resuming : ℕ → Operation
  transferring : ℕ → Address → Operation
  delegate_withdrawing : ℕ → Address → Option ℤ → Operation
  delegate_cancelling delegate_pausing delegate_resuming : ℕ → Address → Operation
  delegate_transferring : ℕ → Address → Address → Operation
  creating_batch : Address → List BatchCreateRequest → Operation
  creating_via_factory : Address → Address → StreamTerms → Operation
  withdrawing_batch : Address → List (Option ℕ) → Operation
  granting : ℕ → Address → Address → ℕ → Option ℕ → Operation
  revoking : ℕ → Address → Address → Operation
  extending : ℕ → Operation
  extending_batch : List (Option ℕ) → Operation
  cancelling_batch : Address → List (Option ℕ) → Operation
  reclaiming : ℕ → Operation
  setting_operator : Address → Operation
  halting lifting_halt : Operation

-- The operations whose entry point tests the halt.
abbrev pub is_guarded : Operation → Bool
is_guarded (cancelling_batch sender ids) = false
is_guarded (reclaiming i) = false
is_guarded (setting_operator a) = false
is_guarded halting = false
is_guarded lifting_halt = false
is_guarded _ = true

abbrev drop_answer : {L A : Type 0} → Call L A → Call L Unit
drop_answer m = m >>= λ _. pure tt

unfoldable pub perform : {L : Type 0} → Env L → Operation → Call L Unit
perform e (creating sender t) = drop_answer (create_stream e sender t)
perform e (creating_with_cliff_mode sender t) =
    drop_answer (create_stream_with_cliff_mode e sender t)
perform e (creating_with_curve sender t) = drop_answer (create_stream_with_curve e sender t)
perform e (topping_up i amount) = top_up e i amount
perform e (withdrawing i amount) = drop_answer (withdraw e i amount)
perform e (cancelling i) = cancel e i
perform e (pausing i) = pause e i
perform e (resuming i) = resume e i
perform e (transferring i r) = transfer_recipient e i r
perform e (delegate_withdrawing i d amount) = drop_answer (delegate_withdraw e i d amount)
perform e (delegate_cancelling i d) = delegate_cancel e i d
perform e (delegate_pausing i d) = delegate_pause e i d
perform e (delegate_resuming i d) = delegate_resume e i d
perform e (delegate_transferring i d r) = delegate_transfer_recipient e i d r
perform e (creating_batch sender rs) = drop_answer (batch_create e sender rs)
perform e (creating_via_factory f sender t) = drop_answer (create_stream_via_factory e f sender t)
perform e (withdrawing_batch recipient ids) = drop_answer (batch_withdraw e recipient ids)
perform e (granting i grantor d ops x) = grant_delegate e i grantor d ops x
perform e (revoking i grantor d) = revoke_delegate e i grantor d
perform e (extending i) = drop_answer (extend_stream_ttl e i)
perform e (extending_batch ids) = drop_answer (batch_extend_ttl e ids)
perform e (cancelling_batch sender ids) = drop_answer (batch_cancel e sender ids)
perform e (reclaiming i) = drop_answer (reclaim_dust e i)
perform e (setting_operator a) = set_halt_operator e a
perform e halting = halt e
perform e lifting_halt = resume_contract e

-- The worlds at an instant after any number of calls of `Operation`, in any order and by any caller, between which
-- time passes and other contracts change the state of the tokens. A call that fails changes nothing.
pub data Reachable {L : Type 0} : ℕ → World L → Type 0 where
  initial : (now : ℕ) (w : World L) → ((i : ℕ) → w.streams i ≡ none) → Reachable now w
  later : {now : ℕ} {w : World L} (t : ℕ) → now ≤ t → Reachable now w → Reachable t w
  elsewhere :
      {now : ℕ} {w : World L} (ledger : L)
      → Reachable now w
      → Reachable now (record w { ledger = ledger })
  called :
      {w w' : World L} (e : Env L) (op : Operation)
      → Reachable e.now w
      → perform e op w ≡ ok (tt, w')
      → Reachable e.now w'

module _ {L : Type 0} where
  pub dropped :
      {A : Type 0} {P : World L → Type 0} {m : Call L A} → Keeps P m → Keeps P (drop_answer m)
  dropped h = Triple-bind h (λ _. Triple-pure tt (λ w p. p))

  -- A call of `Operation` that succeeds, with any arguments, leaves every stream well-formed when every
  -- stream was.
  pub perform-Keeps : (e : Env L) (op : Operation) → Keeps (AllWellFormed e.now) (perform e op)
  unfolding perform
  perform-Keeps e (creating sender t) =
      dropped (create_stream-Keeps e sender (create_stream_inner-Keeps e sender) t)
  perform-Keeps e (creating_with_cliff_mode sender t) =
      dropped (create_stream_with_cliff_mode-Keeps e sender (create_stream_inner-Keeps e sender) t)
  perform-Keeps e (creating_with_curve sender t) =
      dropped (create_stream_with_curve-Keeps e sender (create_stream_inner-Keeps e sender) t)
  perform-Keeps e (topping_up i amount) = top_up-Keeps e i amount
  perform-Keeps e (withdrawing i amount) = dropped (withdraw-Keeps e i amount)
  perform-Keeps e (cancelling i) = cancel-Keeps e i
  perform-Keeps e (pausing i) = pause-Keeps e i
  perform-Keeps e (resuming i) = resume-Keeps e i
  perform-Keeps e (transferring i r) = transfer_recipient-Keeps e i r
  perform-Keeps e (delegate_withdrawing i d amount) = dropped (delegate_withdraw-Keeps e i d amount)
  perform-Keeps e (delegate_cancelling i d) = delegate_cancel-Keeps e i d
  perform-Keeps e (delegate_pausing i d) = delegate_pause-Keeps e i d
  perform-Keeps e (delegate_resuming i d) = delegate_resume-Keeps e i d
  perform-Keeps e (delegate_transferring i d r) = delegate_transfer_recipient-Keeps e i d r
  perform-Keeps e (creating_batch sender rs) =
      dropped (batch_create-Keeps e sender (create_stream_inner-Keeps e sender) rs)
  perform-Keeps e (creating_via_factory f sender t) =
      dropped (create_stream_via_factory-Keeps e sender (create_stream_inner-Keeps e sender) f t)
  perform-Keeps e (withdrawing_batch recipient ids) = dropped (batch_withdraw-Keeps e recipient ids)
  perform-Keeps e (granting i grantor d ops x) = grant_delegate-Keeps e i grantor d ops x
  perform-Keeps e (revoking i grantor d) = revoke_delegate-Keeps e i grantor d
  perform-Keeps e (extending i) = dropped (extend_stream_ttl-Keeps e i)
  perform-Keeps e (extending_batch ids) = dropped (batch_extend_ttl-Keeps e ids)
  perform-Keeps e (cancelling_batch sender ids) = dropped (batch_cancel-Keeps e sender ids)
  perform-Keeps e (reclaiming i) = dropped (reclaim_dust-Keeps e i)
  perform-Keeps e (setting_operator a) = set_halt_operator-Keeps e a
  perform-Keeps e halting = halt-Keeps e
  perform-Keeps e lifting_halt = resume_contract-Keeps e

  nothing_found :
      (w : World L) (i : ℕ) (s : Stream) → w.streams i ≡ none → ¬ (find_stream w i ≡ some s)
  unfolding find_stream
  nothing_found w i s h f = ground arith

  unmoved :
      (now : ℕ) (w : World L) (ledger : L)
      → AllWellFormed now w
      → AllWellFormed now (record w { ledger = ledger })
  unfolding find_stream
  unmoved now w ledger p = all_streams _ (λ i s f. every_stream w p i s f)

  -- In every world that is reached from a world without streams by any sequence of successful calls
  -- of the state-changing entry points other than delegate_top_up every stored stream is well-
  -- formed at that world's time: its arithmetic is in range, its withdrawn amount is covered by
  -- what has vested, a pause is recorded exactly when the status is paused, a live stream has a
  -- positive duration, a terminal stream has vested its whole deposit, and a depleted stream has
  -- paid it out.
  pub Reachable-AllWellFormed : (now : ℕ) (w : World L) → Reachable now w → AllWellFormed now w
  Reachable-AllWellFormed now w (initial _ _ h) =
      all_streams w (λ i s f. absurd (nothing_found w i s (h i) f))
  Reachable-AllWellFormed now w (later {now = t} {w = v} u h r) =
      all_streams w
        (λ i s f. IsWellFormed-later s t u h (every_stream v (Reachable-AllWellFormed t v r) i s f))
  Reachable-AllWellFormed now w (elsewhere {now = t} {w = v} ledger r) =
      unmoved t v ledger (Reachable-AllWellFormed t v r)
  Reachable-AllWellFormed now w (called {w = v} {w' = v'} e op r h) =
      (perform-Keeps e op).holds v tt v' (Reachable-AllWellFormed e.now v r) h

well_formed_amounts :
    (s : Stream) (now : ℕ)
    → IsWellFormed now s
    → (v : ℕ) × (vested s now ≡ ok (pos v))
      × (s.withdrawn ≤ℤ pos v)
      × (pos v ≤ℤ s.deposited)
      × (withdrawable s now ≡ ok (pos (v - pos_part s.withdrawn)))
well_formed_amounts s now i = (
  vested_amount s now,
  vested-eq s now i.funded,
  omega (arith, i.covered, i.withdrawn_nonneg),
  omega (arith, vested_amount-le s now, neg_part_zero s.deposited i.funded.nonneg),
  withdrawable-eq now s i,
)

-- In every world that is reached from a world without streams by any sequence of successful calls
-- of the state-changing entry points other than delegate_top_up, with time passing and the token
-- state changing freely between them, every stored stream's amounts are computed without an error:
-- what was withdrawn is at most what has vested, what has vested is at most the deposit, and
-- exactly the difference of the first two can be withdrawn.
pub Reachable-amounts :
    {L : Type 0} (now : ℕ) (w : World L) (i : ℕ) (s : Stream)
    → Reachable now w
    → find_stream w i ≡ some s
    → (v : ℕ) × (vested s now ≡ ok (pos v))
      × (s.withdrawn ≤ℤ pos v)
      × (pos v ≤ℤ s.deposited)
      × (withdrawable s now ≡ ok (pos (v - pos_part s.withdrawn)))
Reachable-amounts now w i s r f =
    well_formed_amounts s now (every_stream w (Reachable-AllWellFormed now w r) i s f)
