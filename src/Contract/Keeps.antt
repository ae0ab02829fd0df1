-- ===== src/Contract/Keeps.antt =====
-- Well-formedness of all streams under the direct entry points on one stream.
pub mod Delegated
pub mod Batches
pub mod Dust
pub mod Aside
pub mod Creation
pub mod Reachable
use fluxora_contracts.Base.{
  ℕ, ℤ, pos, ◌≡◌, refl, subst, sym, ◌∙◌, ap, Option, none, some, arith, ltb_ℤ, inl, inr, ◌<◌,
}
use fluxora_contracts.Errors.{Result, ok, err, trap, Result-cases}
use fluxora_contracts.Types.{default_cliff_mode, Address, Stream, CliffMode, ReleaseCurve, linear}
use fluxora_contracts.Events.{Event}
use fluxora_contracts.Host.{Env, World, Call, pure, lift, publish, require_auth, ◌>>=◌, ◌>>◌}
use fluxora_contracts.Storage.{
  find_stream, extend_stream, load_stream, peek_stream, save_stream, next_stream_id, debit_pool,
}
use fluxora_contracts.Publish.{
  stream_created, withdrawn_event, cancelled_event, paused_event, resumed_event, topped_up_event,
  recipient_transferred, panic,
}
use fluxora_contracts.Transition.Create.{StreamTerms, check_terms, new_stream}
use fluxora_contracts.Transition.TopUp.{topped_up, delegate_topped_up}
use fluxora_contracts.Transition.Withdraw.{choose_payout, drawn}
use fluxora_contracts.Transition.Withdraw.Keeps.{drawn-IsWellFormed}
use fluxora_contracts.Transition.Cancel.{quote_cancel, settled}
use fluxora_contracts.Transition.Pause.{
  check_pause, check_resume, frozen, thawed, pause_stream, resume_stream, delegate_pause_stream,
  delegate_resume_stream,
}
use fluxora_contracts.Transition.Transfer.{assigned, transfer_stream, delegate_transfer_stream}
use fluxora_contracts.Transition.Invariant.{IsWellFormed, IsWellFormed-later}
use fluxora_contracts.Transition.Invariant.Keeps.{
  new_stream-IsWellFormed, frozen-IsWellFormed, thawed-IsWellFormed, assigned-IsWellFormed,
}
use fluxora_contracts.Transition.Invariant.Steps.{
  pause_stream-IsWellFormed, resume_stream-IsWellFormed, transfer_stream-IsWellFormed,
}
use fluxora_contracts.Transition.Invariant.Pays.{settled-IsWellFormed, topped_up-IsWellFormed}
use fluxora_contracts.Contract.Triple.{
  Triple, Keeps, Triple-bind, Triple-weaken, Triple-pure, Triple-lift, Keeps-when, Keeps-reject_if,
  Triple-if,
}
use fluxora_contracts.Contract.Book.{
  with_fact, require_auth-Keeps, unwrap-Keeps, publish-Keeps, extend_instance-Keeps,
  extend_stream-Keeps, require_not_halted-Keeps, check_delegate-Keeps, token_transfer-Keeps,
  verify_pool_balance-Keeps,
}
use fluxora_contracts.Contract.Book.Notices.{withdrawn_event-Keeps, topped_up_event-Keeps}
use fluxora_contracts.Contract.Frame.{
  AllStreams, KeepsAll, peek_stream-finds, load_stream-finds, save_stream-keeps,
  next_stream_id-keeps, credit_pool-keeps, debit_pool-keeps, pull_deposit-keeps,
}
use fluxora_contracts.Contract.Create.{
  create_stream_inner, create_stream_with_cliff_mode, create_stream, create_stream_with_curve,
}
use fluxora_contracts.Contract.TopUp.{top_up}
use fluxora_contracts.Contract.Withdraw.{apply_withdrawal, withdraw}
use fluxora_contracts.Contract.Cancel.{pay_refund, settle_cancel, cancel}
use fluxora_contracts.Contract.Pause.{pause, resume}
use fluxora_contracts.Contract.Transfer.{transfer_recipient}

-- Every stream of a world is well-formed at `now`.
abbrev pub AllWellFormed : {L : Type 0} → ℕ → World L → Type 0
AllWellFormed now = AllStreams (IsWellFormed now)

module _ {L : Type 0} (e : Env L) where
  -- A transition that is computed from a well-formed stream and keeps it well-formed.
  pub lift-keeps :
      {A W : Type 0} {P : World L → Type 0} (r : Result A) (R : A → Type 0)
      → ((a : A) → r ≡ ok a → W → R a)
      → Triple (λ w. P w × W) (lift r) (λ a w. P w × R a)
  lift-keeps r R h = Triple-lift r (λ a w eq p. (p.0, h a eq p.1))

  -- The load, the check and the transition that the entry points on one stream begin with.
  abbrev pub Live : Stream → World L → Type 0
  Live s w = AllWellFormed e.now w × IsWellFormed e.now s

  pub loaded :
      {A : Type 0} {Q : A → World L → Type 0} (i : ℕ) {f : Stream → Call L A}
      → ((s : Stream) → Triple (Live s) (f s) Q)
      → Triple (AllWellFormed e.now) (load_stream e i >>= f) Q
  loaded i h = Triple-bind (load_stream-finds e i) h

  -- A stream that is well-formed is saved, and something that leaves the streams alone follows.
  pub saved :
      (i : ℕ) (s : Stream) {A : Type 0} {m : Call L A}
      → KeepsAll {L = L} (IsWellFormed e.now) m
      → Triple (Live s) (save_stream e i s >> m) (λ _. AllWellFormed e.now)
  saved i s h = Triple-bind (save_stream-keeps e i s) (λ _. h)

  -- The authorization and the transition.
  pub authorized :
      {A B W : Type 0} {P : World L → Type 0} {Q : B → World L → Type 0} (a : Address)
      (r : Result A) (R : A → Type 0) {f : A → Call L B}
      → ((x : A) → r ≡ ok x → W → R x)
      → ((x : A) → Triple (λ w. P w × R x) (f x) Q)
      → Triple (λ w. P w × W) (require_auth e a >> (lift r >>= f)) Q
  authorized a r R h k =
      Triple-bind (with_fact (require_auth-Keeps e a)) (λ _. Triple-bind (lift-keeps r R h) k)

  pub pause-Keeps : (i : ℕ) → Keeps (AllWellFormed e.now) (pause e i)
  unfolding pause paused_event
  pause-Keeps i = Triple-bind require_not_halted-Keeps (λ _. loaded i (λ s.
      authorized s.sender (pause_stream s e.now) (IsWellFormed e.now)
        (pause_stream-IsWellFormed e.now s) (λ s'. saved i s' (publish-Keeps _))))

  pub resume-Keeps : (i : ℕ) → Keeps (AllWellFormed e.now) (resume e i)
  unfolding resume resumed_event
  resume-Keeps i = Triple-bind require_not_halted-Keeps (λ _. loaded i (λ s.
      authorized s.sender (resume_stream s e.now) (λ r. IsWellFormed e.now r.0)
        (resume_stream-IsWellFormed e.now s) (λ r. saved i r.0 (publish-Keeps _))))

  pub transfer_recipient-Keeps :
      (i : ℕ) (r : Address) → Keeps (AllWellFormed e.now) (transfer_recipient e i r)
  unfolding transfer_recipient recipient_transferred
  transfer_recipient-Keeps i r = Triple-bind require_not_halted-Keeps (λ _. loaded i (λ s.
      authorized s.sender (transfer_stream s r e.now) (IsWellFormed e.now)
        (transfer_stream-IsWellFormed e.now s r) (λ s'. saved i s' (publish-Keeps _))))

  -- A payout that `choose_payout` chose.
  abbrev pub Chosen : Stream → Option ℤ → ℤ → Type 0
  Chosen s amount payout = IsWellFormed e.now s × (choose_payout s e.now amount ≡ ok payout)

  pub apply_withdrawal-keeps :
      (i : ℕ) (s : Stream) (amount : Option ℤ) (payout : ℤ)
      → Triple
          (λ w. AllWellFormed e.now w × Chosen s amount payout)
          (apply_withdrawal e i s payout)
          (λ _. AllWellFormed e.now)
  unfolding apply_withdrawal
  apply_withdrawal-keeps i s amount payout =
      Triple-bind
        (lift-keeps (drawn s payout e.now) (IsWellFormed e.now)
          (λ s' eq c. (drawn-IsWellFormed e.now s amount c.1 eq c.0).0))
        (λ s'. Triple-bind (with_fact (debit_pool-keeps e _ payout)) (λ _. saved i s' (
          Triple-bind (token_transfer-Keeps e _ _ _ payout)
            (λ _. withdrawn_event-Keeps i s' payout))))

  pub withdraw-Keeps :
      (i : ℕ) (amount : Option ℤ) → Keeps (AllWellFormed e.now) (withdraw e i amount)
  unfolding withdraw
  withdraw-Keeps i amount = Triple-bind require_not_halted-Keeps (λ _. loaded i (λ s.
      authorized s.recipient (choose_payout s e.now amount) (Chosen s amount)
        (λ payout eq h. (h, eq))
        (λ payout.
          Triple-bind (apply_withdrawal-keeps i s amount payout) (λ _.
            Triple-bind (verify_pool_balance-Keeps e _) (λ _. Triple-pure payout (λ w p. p))))))

  pub top_up-Keeps : (i : ℕ) (amount : ℤ) → Keeps (AllWellFormed e.now) (top_up e i amount)
  unfolding top_up
  top_up-Keeps i amount = Triple-bind require_not_halted-Keeps (λ _. loaded i (λ s.
      authorized s.sender (topped_up s amount e.now) (IsWellFormed e.now)
        (λ s' eq h. topped_up-IsWellFormed e.now s amount eq h)
        (λ s'. Triple-bind (with_fact (pull_deposit-keeps e _ _ amount)) (λ _.
          Triple-bind (with_fact (verify_pool_balance-Keeps e _))
            (λ _. saved i s' (topped_up_event-Keeps i s' amount))))))

  pub pay_refund-keeps :
      (s : Stream) (refund : ℤ) → KeepsAll {L = L} (IsWellFormed e.now) (pay_refund e s refund)
  unfolding pay_refund
  pay_refund-keeps s refund =
      Triple-bind (debit_pool-keeps e _ refund) (λ _. token_transfer-Keeps e _ _ _ refund)

  pub settle_cancel-keeps :
      (i : ℕ) (s : Stream) (v r : ℤ)
      → Triple
          (λ w. AllWellFormed e.now w × IsWellFormed e.now (settled s e.now v))
          (settle_cancel e i s v r)
          (λ _. AllWellFormed e.now)
  unfolding settle_cancel cancelled_event
  settle_cancel-keeps i s v r = saved i (settled s e.now v) (
      Triple-bind (Keeps-when _ (pay_refund-keeps (settled s e.now v) r))
        (λ _. Triple-bind (verify_pool_balance-Keeps e _) (λ _. publish-Keeps _)))

  pub cancel-Keeps : (i : ℕ) → Keeps (AllWellFormed e.now) (cancel e i)
  unfolding cancel
  cancel-Keeps i = Triple-bind require_not_halted-Keeps (λ _. loaded i (λ s.
      authorized s.sender (quote_cancel s e.now) (λ q. IsWellFormed e.now (settled s e.now q.0))
        (λ q eq h. settled-IsWellFormed e.now s eq h) (λ q. settle_cancel-keeps i s q.0 q.1)))

  pub create_stream_inner-Keeps :
      (sender : Address) (t : StreamTerms)
      → Keeps (AllWellFormed e.now) (create_stream_inner e sender t)
  unfolding create_stream_inner stream_created
  create_stream_inner-Keeps sender t =
      Triple-bind
        (Triple-lift {Q = λ _ w. AllWellFormed e.now w × IsWellFormed e.now (new_stream sender t)}
          (check_terms sender t) (λ u w eq p. (p, new_stream-IsWellFormed sender t e.now eq)))
        (λ _. Triple-bind (with_fact (next_stream_id-keeps e)) (λ i.
          Triple-bind (with_fact (pull_deposit-keeps e _ sender _)) (λ _.
            saved i (new_stream sender t) (
              Triple-bind (extend_instance-Keeps e)
                (λ _. Triple-bind (publish-Keeps _) (λ _. Triple-pure i (λ w p. p)))))))
