-- ===== src/Contract/Pool/Deployed.antt =====
-- The pools in the worlds that a deployed contract reaches by the calls of `Operation`, which leaves out
-- `delegate_top_up`.
use fluxora_contracts.Base.{ℕ, ◌+◌, ◌-◌, ◌≤◌, ◌≡◌, ◌∙◌, ap, pos, pos_part, none, some, arith}
use fluxora_contracts.Errors.{ok}
use fluxora_contracts.Types.{Address, Stream}
use fluxora_contracts.Host.{Env, World}
use fluxora_contracts.Storage.{find_stream, pooled_balance, get_or}
use fluxora_contracts.Accrual.{withdrawable, refundable}
use fluxora_contracts.Accrual.Bounds.{vested_add_refundable}
use fluxora_contracts.Transition.Invariant.{
  IsWellFormed-later, vested_amount, vested_amount-le, vested_amount_unique,
}
use fluxora_contracts.Transition.Withdraw.Keeps.{withdrawable-eq}
use fluxora_contracts.Contract.Book.{Over, view}
use fluxora_contracts.Contract.Keeps.Reachable
use fluxora_contracts.Contract.Keeps.Reachable.{Operation, perform}
use fluxora_contracts.Contract.Pool.{total_held, held}
use fluxora_contracts.Contract.Pool.Posts.{held-le-pool}
use fluxora_contracts.Contract.Pool.Keeps.{Level}
use fluxora_contracts.Contract.Pool.Operations.{perform-Level}

module _ {L : Type 0} where
  -- The storage of a contract that nobody has called.
  pub record IsFresh (w : World L) : Type 0 where
    pub no_streams : (i : ℕ) → w.streams i ≡ none
    pub no_pools : (token : Address) → w.pooled token ≡ none
    pub no_ids : w.next_stream_id ≡ none

-- The worlds at an instant after any number of successful calls of `Operation` on a contract that was deployed, in any
-- order and by any caller, between which time passes and other contracts change the state of the tokens.
pub data Deployed {L : Type 0} : ℕ → World L → Type 0 where
  fresh : (now : ℕ) (w : World L) → IsFresh w → Deployed now w
  later : {now : ℕ} {w : World L} (t : ℕ) → now ≤ t → Deployed now w → Deployed t w
  elsewhere :
      {now : ℕ} {w : World L} (ledger : L)
      → Deployed now w
      → Deployed now (record w { ledger = ledger })
  called :
      {w w' : World L} (e : Env L) (op : Operation)
      → Deployed e.now w
      → perform e op w ≡ ok (tt, w')
      → Deployed e.now w'

module _ {L : Type 0} where
  pub Deployed-Reachable : (now : ℕ) (w : World L) → Deployed now w → Reachable.Reachable now w
  Deployed-Reachable now w (fresh _ _ h) = Reachable.initial now w h.no_streams
  Deployed-Reachable now w (later {now = t} {w = v} u h r) =
      Reachable.later u h (Deployed-Reachable t v r)
  Deployed-Reachable now w (elsewhere {now = t} {w = v} ledger r) =
      Reachable.elsewhere ledger (Deployed-Reachable t v r)
  Deployed-Reachable now w (called {w = v} e op r h) =
      Reachable.called e op (Deployed-Reachable e.now v r) h

  fresh-Level : (now : ℕ) (w : World L) → IsFresh w → Level now (view w)
  unfolding view find_stream pooled_balance total_held
  fresh-Level now w h = (
    record { every = λ i s f. absurd (let free = h.no_streams i in ground (arith, free, f)) },
    record {
      recorded = λ token. let free = h.no_pools token in ground (arith, free);
      agrees = λ token.
          let free = h.no_pools token in let none_yet = h.no_ids in ground (arith, free, none_yet);
      unused = λ i le. let free = h.no_streams i in ground (arith, free);
    },
  )

  pub Deployed-Level : (now : ℕ) (w : World L) → Deployed now w → Over (Level now) w
  unfolding view find_stream pooled_balance
  Deployed-Level now w (fresh _ _ h) = record { sees = fresh-Level now w h }
  Deployed-Level now w (later {now = t} {w = v} u h r) =
      let before = (Deployed-Level t v r).sees in
      record {
        sees = (
          record { every = λ i s f. IsWellFormed-later s t u h (before.0.every i s f) },
          before.1,
        );
      }
  Deployed-Level now w (elsewhere {now = t} {w = v} ledger r) = record {
    sees = (Deployed-Level t v r).sees;
  }
  Deployed-Level now w (called {w = v} {w' = v'} e op r h) =
      (perform-Level e op).holds v tt v' (Deployed-Level e.now v r) h

  pub next_id : World L → ℕ
  next_id w = get_or 0 w.next_stream_id

  -- In every world that a deployed contract reaches from empty storage by any sequence of
  -- successful calls of the state-changing entry points other than delegate_top_up, the batched
  -- ones included, with time passing and the token state changing freely between them, the recorded
  -- balance of every token's pool is exactly the sum, over the streams of that token with an id
  -- below the next one, of the deposit less what was withdrawn, and no id from the next one on is
  -- in use.
  pub Deployed-pool :
      (now : ℕ) (w : World L) (token : Address)
      → Deployed now w
      → (pooled_balance w token ≡ pos (total_held (find_stream w) token (next_id w)))
        × ((i : ℕ) → next_id w ≤ i → find_stream w i ≡ none)
  unfolding view next_id
  Deployed-pool now w token r =
      let level = (Deployed-Level now w r).sees.1 in
      let amount = level.agrees token in
      (level.recorded token ∙ ap pos (ground (arith, amount)), level.unused)

  -- In every world that a deployed contract reaches by successful calls of the state-changing entry
  -- points other than delegate_top_up, for every stored stream `withdrawable` and `refundable`
  -- succeed with amounts that add up to exactly its deposit less what was withdrawn, and the
  -- recorded balance of its token's pool covers that sum.
  pub Deployed-claims :
      (now : ℕ) (w : World L) (i : ℕ) (s : Stream)
      → Deployed now w
      → find_stream w i ≡ some s
      → (a : ℕ) × (r : ℕ) × (p : ℕ) × (withdrawable s now ≡ ok (pos a))
        × (refundable s now ≡ ok (pos r))
        × (held s ≡ a + r)
        × (pooled_balance w s.token ≡ pos p)
        × (a + r ≤ p)
  unfolding view
  Deployed-claims now w i s r f =
      let level = (Deployed-Level now w r).sees in
      let wf = level.0.every i s f in
      let le = vested_amount-le s now in
      let bound = held-le-pool (view w) i level.1 f in
      let (v, x, hv, hx, sum) = vested_add_refundable s now wf.funded in
      let same = vested_amount_unique s now v wf.funded hv in
      let both : held s ≡ (vested_amount s now - pos_part s.withdrawn) + x =
        ground (arith, same, sum, le, wf.covered) in
      (
        vested_amount s now - pos_part s.withdrawn,
        x,
        pos_part (pooled_balance w s.token),
        withdrawable-eq now s wf,
        hx,
        both,
        level.1.recorded s.token,
        omega (arith, both, bound),
      )
