-- ===== src/Contract/Cancel.antt =====
-- `cancel`, `batch_cancel`, the `settle_cancel` that they share, and `reclaim_dust`. Neither
-- `batch_cancel` nor `reclaim_dust` tests the halt.
pub mod Batch
use fluxora_contracts.Base.{
  ℕ, zero, suc, ◌+◌, ℤ, pos, ltb_ℤ, ◌==◌, not, if◌then◌else◌, Option, none, some, List, [], ◌∷◌,
  checked_add, checked_sub,
}
use fluxora_contracts.Errors.{Error, Result, ok, err, trap, unauthorized, overflow, discriminant}
use fluxora_contracts.Types.{Address, Stream, is_terminal, BatchCancelOutcome}
use fluxora_contracts.Host.{
  Env, Call, pure, lift, ok_or, reject_if, when, require_auth, ◌>>=◌, ◌>>◌,
}
use fluxora_contracts.Storage.{load_stream, peek_stream, save_stream, debit_pool}
use fluxora_contracts.Publish.{cancelled_event}
use fluxora_contracts.Transition.Cancel.{quote_cancel, settled, dust}
use fluxora_contracts.Contract.Guards.{require_not_halted, validate_batch_ids, reject_duplicate_ids}
use fluxora_contracts.Contract.Payments.{token_transfer, verify_pool_balance}

-- A member of a batch with what was quoted for it.
pub record Settlement : Type 0 where
  pub stream_id : ℕ
  pub stream : Stream
  pub vested_now : ℤ
  pub refund : ℤ

-- How the pricing of a batch ends: every member is priced, or one refuses.
pub data Quotes : Type 0 where
  priced : ℤ → List Settlement → Quotes
  refused : ℕ → Error → Quotes

abbrev pub add_settlement : Settlement → Quotes → Quotes
add_settlement p (priced total ps) = priced total (p ∷ ps)
add_settlement p (refused i reason) = refused i reason

abbrev outcome : ℤ → Option ℕ → Option ℕ → BatchCancelOutcome
outcome refunded index reason = record {
  refunded = refunded;
  refused_index = index;
  refused_reason = reason;
}

-- The second loop: price the members from the position `i` on, at one instant.
unfoldable pub price_all : ℕ → ℕ → ℤ → List (ℕ × Stream) → Result Quotes
price_all now i total [] = ok (priced total [])
price_all now i total ((stream_id, s) ∷ rest) = elim (quote_cancel s now) [
  | ok (vested_now, refund) ↦ elim (checked_add total refund) [
    | none ↦ err overflow
    | some total' ↦ elim (price_all now (i + 1) total' rest) [
      | ok quotes ↦ ok (
          add_settlement
            record { stream_id = stream_id; stream = s; vested_now = vested_now; refund = refund }
            quotes)
      | err x ↦ err x
      | trap ↦ trap
    ]
  ]
  | err reason ↦ ok (refused i reason)
  | trap ↦ trap
]

module _ {L : Type 0} where
  -- The refund leaves the pool, if there is one.
  unfoldable pub pay_refund : Env L → Stream → ℤ → Call L Unit
  pay_refund e s refund = do
    debit_pool e s.token refund
    token_transfer e s.token e.contract s.sender refund

  unfoldable pub settle_cancel : Env L → ℕ → Stream → ℤ → ℤ → Call L Unit
  unfolding pay_refund
  settle_cancel e stream_id s vested_now refund = do
    let s' = settled s e.now vested_now
    save_stream e stream_id s'
    when (ltb_ℤ (pos 0) refund) (pay_refund e s' refund)
    verify_pool_balance e s'.token
    cancelled_event stream_id s' refund

  unfoldable pub cancel : Env L → ℕ → Call L Unit
  unfolding settle_cancel
  cancel e stream_id = do
    require_not_halted
    s ← load_stream e stream_id
    require_auth e s.sender
    (vested_now, refund) ← lift (quote_cancel s e.now)
    settle_cancel e stream_id s vested_now refund

  -- The first loop of `batch_cancel`: every member exists and belongs to the sender.
  unfoldable pub resolve_owned : Address → List ℕ → Call L (List (ℕ × Stream))
  resolve_owned sender [] = pure []
  resolve_owned sender (stream_id ∷ ids) = do
    s ← peek_stream stream_id
    reject_if (not (s.sender == sender)) unauthorized
    rest ← resolve_owned sender ids
    pure ((stream_id, s) ∷ rest)

  -- The third loop.
  unfoldable pub settle_all : Env L → List Settlement → Call L Unit
  unfolding settle_cancel
  settle_all e [] = pure tt
  settle_all e (p ∷ ps) = do
    settle_cancel e p.stream_id p.stream p.vested_now p.refund
    settle_all e ps

  unfoldable pub conclude : Env L → Quotes → Call L BatchCancelOutcome
  unfolding settle_all
  conclude e (refused i reason) = pure (outcome (pos 0) (some i) (some (discriminant reason)))
  conclude e (priced total settlements) = do
    settle_all e settlements
    pure (outcome total none none)

  unfoldable pub batch_cancel : Env L → Address → List (Option ℕ) → Call L BatchCancelOutcome
  unfolding resolve_owned price_all conclude
  batch_cancel e sender stream_ids = do
    ids ← validate_batch_ids stream_ids
    reject_duplicate_ids ids
    require_auth e sender
    streams ← resolve_owned sender ids
    quotes ← lift (price_all e.now 0 (pos 0) streams)
    conclude e quotes

  -- The dust leaves the contract; the pool's expected balance is not debited.
  unfoldable pub pay_dust : Env L → ℕ → Stream → ℤ → Call L Unit
  pay_dust e stream_id s amount = do
    deposited ← ok_or (checked_sub s.deposited amount) overflow
    save_stream e stream_id (record s { deposited = deposited })
    token_transfer e s.token e.contract s.sender amount

  unfoldable pub reclaim_terminal : Env L → ℕ → Stream → Call L ℤ
  unfolding pay_dust
  reclaim_terminal e stream_id s = do
    amount ← lift (dust s e.now)
    when (ltb_ℤ (pos 0) amount) (pay_dust e stream_id s amount)
    pure amount

  unfoldable pub reclaim_dust : Env L → ℕ → Call L ℤ
  unfolding reclaim_terminal
  reclaim_dust e stream_id = do
    s ← load_stream e stream_id
    require_auth e s.sender
    if is_terminal s.status then reclaim_terminal e stream_id s else pure (pos 0)
