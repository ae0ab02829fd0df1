-- ===== src/Contract/Pool/Solvent.antt =====
-- What the contract owns of a token after a withdrawal or a cancellation.
use fluxora_contracts.Base.{
  ℕ, ◌≡◌, refl, sym, ◌∙◌, ap, subst, ℤ, pos, ◌≤ℤ◌, Option, some, arith, [], ◌∷◌, ◌++◌,
}
use fluxora_contracts.Errors.{ok}
use fluxora_contracts.Events.{Event}
use fluxora_contracts.Types.{Address, Stream}
use fluxora_contracts.Host.{Env, World, Call, publish, pure, ◌>>=◌}
use fluxora_contracts.Storage.{find_stream, pooled_balance}
use fluxora_contracts.Transition.Cancel.{settled}
use fluxora_contracts.Contract.Triple.{
  Triple, Keeps, Triple-bind, Triple-weaken, Triple-pure, Triple-gets, Triple-unwrap,
  Triple-reject_if,
}
use fluxora_contracts.Contract.Book.{
  Over, view, with_fact, require_auth-Keeps, require_not_halted-Keeps, load_stream-finds,
}
use fluxora_contracts.Publish.{cancelled_event}
use fluxora_contracts.Contract.Payments.{balance_of, verify_pool_balance}
use fluxora_contracts.Contract.Withdraw.{withdraw}
use fluxora_contracts.Contract.Cancel.{cancel, settle_cancel}
use fluxora_contracts.Contract.Keeps.Reachable.{perform, withdrawing, cancelling}
use fluxora_contracts.Contract.Pool.{total_held}
use fluxora_contracts.Contract.Pool.Deployed.{Deployed, called, next_id, Deployed-pool}

module _ {L : Type 0} (e : Env L) where
  -- The contract's own balance is at least what is recorded for the pool.
  Covered : Address → World L → Type 0
  Covered token w =
      (k : ℤ) × (e.token.balance w.ledger token e.contract ≡ some k) × (pooled_balance w token ≤ℤ k)

  verify_pool_balance-Covered :
      {F : Type 0} (token : Address)
      → Triple (λ _. F) (verify_pool_balance e token) (λ _ w. Covered token w × F)
  unfolding verify_pool_balance balance_of Covered
  verify_pool_balance-Covered {F} token =
      Triple-bind {Q = λ n w. (pooled_balance w token ≡ n) × F} (Triple-gets _ (λ w f. (refl, f)))
        (λ n.
          Triple-bind
            {Q = λ k w.
              (pooled_balance w token ≡ n)
              × ((e.token.balance w.ledger token e.contract ≡ some k) × F)}
            (Triple-bind
              {Q = λ o w.
                (pooled_balance w token ≡ n)
                × ((e.token.balance w.ledger token e.contract ≡ o) × F)}
              (Triple-gets _ (λ w p. (p.0, (refl, p.1))))
              (λ o. Triple-unwrap o (λ k w eq p. (p.0, (p.1.0 ∙ eq, p.1.1)))))
            (λ k.
              Triple-reject_if _ _
                (λ w eq p. ((k, p.1.0, (let same = p.0 in ground (arith, same, eq))), p.1.1))))

  -- A call that is left out of account.
  skipped :
      {A F : Type 0} {P : World L → Type 0} (m : Call L A) → Triple (λ w. P w × F) m (λ _ _. F)
  skipped m = record { holds = λ w a w' p eq. p.1 }

  bystander : {A F : Type 0} (m : Call L A) → Triple (λ _. F) m (λ _ _. F)
  bystander m = record { holds = λ w a w' p eq. p }

  -- A call that checks the pool of the token of the stream under `i`.
  abbrev Checked : (ℕ → Option Stream) → ℕ → World L → Type 0
  Checked f i w = (s : Stream) × (f i ≡ some s) × Covered s.token w

  known :
      {f : ℕ → Option Stream} {i : ℕ} (s : Stream) (w : World L)
      → Over (λ b. (b.found ≡ f) × (b.found i ≡ some s)) w
      → Over (λ b. b.found ≡ f) w × (f i ≡ some s)
  known {i = i} s w p = (record { sees = p.sees.0 }, ap (λ g. g i) (sym p.sees.0) ∙ p.sees.1)

  -- An event touches neither the pools nor the tokens.
  publish-Checked : (v : Event) (f : ℕ → Option Stream) (i : ℕ) → Keeps (Checked f i) (publish v)
  unfolding publish pooled_balance Covered
  publish-Checked v f i = record {
    holds = λ w a w' p eq.
        let same : record w { events = w.events ++ v ∷ [] } ≡ w' = cc in subst (Checked f i) same p;
  }

  withdraw-Checked :
      (f : ℕ → Option Stream) (i : ℕ) (amount : Option ℤ)
      → Triple (Over (λ b. b.found ≡ f)) (withdraw e i amount) (λ _. Checked f i)
  unfolding withdraw
  withdraw-Checked f i amount = Triple-bind require_not_halted-Keeps (λ _.
      Triple-bind (Triple-weaken (λ w p. p) known (load_stream-finds e i)) (λ s.
        Triple-bind (with_fact (require_auth-Keeps e s.recipient)) (λ _.
          Triple-bind (skipped _) (λ payout. Triple-bind (bystander _) (λ _.
            Triple-bind (verify_pool_balance-Covered s.token)
              (λ _. Triple-pure payout (λ w p. (s, p.1, p.0))))))))

  cancel-Checked :
      (f : ℕ → Option Stream) (i : ℕ)
      → Triple (Over (λ b. b.found ≡ f)) (cancel e i) (λ _. Checked f i)
  unfolding cancel settle_cancel settled cancelled_event
  cancel-Checked f i = Triple-bind require_not_halted-Keeps (λ _.
      Triple-bind (Triple-weaken (λ w p. p) known (load_stream-finds e i)) (λ s.
        Triple-bind (with_fact (require_auth-Keeps e s.sender)) (λ _. Triple-bind (skipped _) (λ q.
          Triple-bind (bystander _) (λ _. Triple-bind (bystander _) (λ _.
            Triple-bind
              (Triple-weaken (λ w p. p) (λ a w p. (s, p.1, p.0))
                (verify_pool_balance-Covered s.token))
              (λ _. publish-Checked _ f i)))))))

-- The balance of the contract covers what all streams of a token hold.
abbrev pub CoversAll : {L : Type 0} → Env L → Address → World L → Type 0
CoversAll e token w =
    (k : ℤ) × (e.token.balance w.ledger token e.contract ≡ some k)
    × (pos (total_held (find_stream w) token (next_id w)) ≤ℤ k)

module _ {L : Type 0} (e : Env L) where
  solvent :
      (w w' : World L) (i : ℕ)
      → Deployed e.now w'
      → Checked e (find_stream w) i w'
      → (s : Stream) × (find_stream w i ≡ some s) × CoversAll e s.token w'
  unfolding Covered
  solvent w w' i d (s, f, (k, balance, le)) =
      let pool = (Deployed-pool e.now w' s.token d).0 in
      (s, f, (k, balance, ground (arith, pool, le)))

  -- When `withdraw` succeeds in a world that a deployed contract reaches by successful calls of the
  -- state-changing entry points other than delegate_top_up, the stream is one that was stored, and
  -- afterwards the contract's own balance of the stream's token is at least the sum of what all
  -- streams of that token hold, each its deposit less what was withdrawn.
  pub withdraw-Solvent :
      (w w' : World L) (i : ℕ) (amount : Option ℤ) (payout : ℤ)
      → Deployed e.now w
      → withdraw e i amount w ≡ ok (payout, w')
      → (s : Stream) × (find_stream w i ≡ some s) × CoversAll e s.token w'
  unfolding perform ◌>>=◌ pure view
  withdraw-Solvent w w' i amount payout d eq =
      solvent w w' i (called e (withdrawing i amount) d (ground (arith, eq))) (
        (withdraw-Checked e (find_stream w) i amount).holds w payout w' (record { sees = refl }) eq)

  -- When `cancel` succeeds in a world that a deployed contract reaches by successful calls of the
  -- state-changing entry points other than delegate_top_up, the stream is one that was stored, and
  -- afterwards the contract's own balance of the stream's token is at least the sum of what all
  -- streams of that token hold, each its deposit less what was withdrawn.
  pub cancel-Solvent :
      (w w' : World L) (i : ℕ)
      → Deployed e.now w
      → cancel e i w ≡ ok (tt, w')
      → (s : Stream) × (find_stream w i ≡ some s) × CoversAll e s.token w'
  unfolding perform view
  cancel-Solvent w w' i d eq =
      solvent w w' i (called e (cancelling i) d eq)
        ((cancel-Checked e (find_stream w) i).holds w tt w' (record { sees = refl }) eq)
