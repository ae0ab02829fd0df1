-- ===== src/Contract/Pool/Settles.antt =====
-- The pools under the parts of the entry points that move a token with a stream.
use fluxora_contracts.Base.{
  ℕ, ◌+◌, ◌-◌, ◌≤◌, ◌≡◌, subst, ℤ, pos, pos_part, ltb_ℤ, Option, some, arith, checked_sub-some,
  checked_add-some,
}
use fluxora_contracts.Errors.{ok}
use fluxora_contracts.Types.{Address, Stream}
use fluxora_contracts.Host.{Env, when}
use fluxora_contracts.Storage.{save_stream, debit_pool}
use fluxora_contracts.Transition.Withdraw.{drawn}
use fluxora_contracts.Transition.Cancel.{quote_cancel, settled}
use fluxora_contracts.Transition.Invariant.{IsWellFormed}
use fluxora_contracts.Contract.Triple.{
  Triple, Triple-bind, Triple-weaken, Keeps-reject_if, Triple-when,
}
use fluxora_contracts.Contract.Book.{
  Book, Over, view, ok_or-Keeps, balance_of-Keeps, token_transfer-Keeps, verify_pool_balance-Keeps,
  publish-Keeps, given,
}
use fluxora_contracts.Contract.Book.Notices.{withdrawn_event-Keeps}
use fluxora_contracts.Publish.{cancelled_event}
use fluxora_contracts.Contract.Payments.{pull_deposit}
use fluxora_contracts.Contract.Withdraw.{apply_withdrawal}
use fluxora_contracts.Contract.Cancel.{pay_refund, settle_cancel}
use fluxora_contracts.Contract.Keeps.{lift-keeps, Chosen}
use fluxora_contracts.Contract.Pool.{held, Balanced}
use fluxora_contracts.Contract.Pool.Moves.{Moves, drawn-Moves, settled-Moves}
use fluxora_contracts.Contract.Pool.Posts.{
  post, enter, held-le-pool, Balanced-post, Balanced-enter, credit_pool-posts, debit_pool-posts,
  save_stream-enters,
}

-- Every pool and its streams agree.
abbrev pub Agree : Book → Type 0
Agree = Balanced 0 0 0

-- Where nothing is under way the token does not matter.
pub retarget : {t : Address} (u : Address) (b : Book) → Balanced t 0 0 b → Balanced u 0 0 b
retarget u b h = record {
  recorded = h.recorded;
  agrees = λ token. let before = h.agrees token in ground (arith, before);
  unused = h.unused;
}

-- A property of a book that the steps on one stream leave alone.
pub record Spares (i : ℕ) (F : Book → Type 0) : Type 0 where
  pub on_post : (t : Address) (k : ℤ) (b : Book) → F b → F (post t k b)
  pub on_enter : (s : Stream) (b : Book) → F b → F (enter i s b)

-- The stream `s` is found under `i`, and its token is `up` above and `down` below.
abbrev pub Held : ℕ → Stream → ℕ → ℕ → (Book → Type 0) → Book → Type 0
Held i s up down F b = Balanced s.token up down b × ((b.found i ≡ some s) × F b)

abbrev pub Agreed : (Book → Type 0) → Book → Type 0
Agreed F b = Agree b × F b

module _ {L : Type 0} (e : Env L) {F : Book → Type 0}
    (spared : (t : Address) (k : ℤ) (b : Book) → F b → F (post t k b)) where
  -- A deposit arrives, before a stream holds it.
  pub pull_deposit-raises :
      (t from : Address) (amount : ℤ)
      → amount ≡ pos (pos_part amount)
      → Triple
          (Over (λ b. Balanced t 0 0 b × F b))
          (pull_deposit e t from amount)
          (λ _. Over (λ b. Balanced t (pos_part amount) 0 b × F b))
  unfolding pull_deposit
  pull_deposit-raises t from amount is_pos = Triple-bind (balance_of-Keeps e t _) (λ before.
      Triple-bind (token_transfer-Keeps e t from _ amount) (λ _.
        Triple-bind (balance_of-Keeps e t _) (λ after. Triple-bind (ok_or-Keeps _ _) (λ received.
          Triple-bind (Keeps-reject_if _ _) (λ _. credit_pool-posts e t amount (λ b k p eq.
            let now_in = p.0.recorded t in
            let sum : k ≡ pos (pos_part (b.pool t) + pos_part amount) =
              checked_add-some _ _ (cc (eq, now_in, is_pos)) in
            rw sum (
              Balanced-post (pos_part amount) 0 _ b (omega arith) p.0,
              spared t (pos (pos_part (b.pool t) + pos_part amount)) b p.1,
            )))))))

  -- What no stream holds any more leaves.
  pub debit_pool-lowers :
      (t : Address) (amount : ℤ)
      → amount ≡ pos (pos_part amount)
      → Triple
          (Over (λ b. Balanced t (pos_part amount) 0 b × F b))
          (debit_pool e t amount)
          (λ _. Over (Agreed F))
  debit_pool-lowers t amount is_pos = debit_pool-posts e t amount (λ b k p eq.
      let now_in = p.0.recorded t in
      let all = p.0.agrees t in
      let enough : pos_part amount ≤ pos_part (b.pool t) = ground (arith, all) in
      let left : k ≡ pos (pos_part (b.pool t) - pos_part amount) =
        checked_sub-some _ _ enough (cc (eq, now_in, is_pos)) in
      rw left (
        retarget 0 _ (Balanced-post {t = t} 0 0 _ b (omega (arith, enough)) p.0),
        spared t (pos (pos_part (b.pool t) - pos_part amount)) b p.1,
      ))

module _ {L : Type 0} (e : Env L) {F : Book → Type 0} (i : ℕ) (s : Stream)
    (spares : Spares i F) where
  save_stream-shifts :
      (s' : Stream) (up down up' down' : ℕ)
      → s'.token ≡ s.token
      → up + down' + held s ≡ down + held s' + up'
      → Triple
          (Over (Held i s up down F))
          (save_stream e i s')
          (λ _. Over (λ b. Balanced s.token up' down' b × F b))
  save_stream-shifts s' up down up' down' same eq =
      save_stream-enters e i s'
        (λ b p. (Balanced-enter up' down' b i s s' same eq p.0 p.1.0, spares.on_enter s' b p.1.1))

  -- A stream that holds what is under way is saved, and the two agree.
  pub save_stream-agrees :
      (s' : Stream) (up down : ℕ)
      → Moves s s' up down
      → Triple (Over (Held i s up down F)) (save_stream e i s') (λ _. Over (Agreed F))
  save_stream-agrees s' up down m =
      Triple-weaken (λ w p. p) (λ a w p. record { sees = (retarget 0 _ p.sees.0, p.sees.1) })
        (save_stream-shifts s' up down 0 0 m.token (let a = m.amount in omega (arith, a)))

  pay_out :
      (t : Address) (amount : ℤ)
      → t ≡ s.token
      → amount ≡ pos (pos_part amount)
      → pos_part amount ≤ held s
      → Triple
          (Over (Held i s 0 0 F))
          (debit_pool e t amount)
          (λ _. Over (Held i s 0 (pos_part amount) F))
  unfolding post
  pay_out t amount same is_pos le = debit_pool-posts e t amount (λ b k p eq.
      let enough = held-le-pool b i p.0 p.1.0 in
      let now_in = p.0.recorded s.token in
      let left : k ≡ pos (pos_part (b.pool s.token) - pos_part amount) =
        checked_sub-some _ _ (omega (arith, enough, le)) (cc (eq, now_in, is_pos, same)) in
      rw left (
        rw same (
          Balanced-post 0 (pos_part amount) _ b (omega (arith, enough, le)) p.0,
          (
            p.1.0,
            spares.on_post s.token (pos (pos_part (b.pool s.token) - pos_part amount)) b p.1.1,
          ),
        )))

  pub apply_withdrawal-agrees :
      (amount : Option ℤ) (payout : ℤ)
      → Triple
          (λ w. Over (Held i s 0 0 F) w × Chosen e s amount payout)
          (apply_withdrawal e i s payout)
          (λ _. Over (Agreed F))
  unfolding apply_withdrawal
  apply_withdrawal-agrees amount payout =
      Triple-bind
        (lift-keeps e (drawn s payout e.now)
          (λ s'.
            (payout ≡ pos (pos_part payout))
            × (pos_part payout ≤ held s)
            × Moves s s' 0 (pos_part payout))
          (λ s' eq c. drawn-Moves e.now s amount c.1 c.0 eq))
        (λ s'. given (λ m. Triple-bind (pay_out s'.token payout m.2.token m.0 m.1) (λ _.
          Triple-bind (save_stream-agrees s' 0 (pos_part payout) m.2) (λ _.
            Triple-bind (token_transfer-Keeps e _ _ _ payout)
              (λ _. withdrawn_event-Keeps i s' payout)))))

  -- The refund of a settled stream.
  refund-agrees :
      (s' : Stream) (refund : ℤ)
      → refund ≡ pos (pos_part refund)
      → s'.token ≡ s.token
      → Triple
          (Over (λ b. Balanced s.token (pos_part refund) 0 b × F b))
          (when (ltb_ℤ (pos 0) refund) (pay_refund e s' refund))
          (λ _. Over (Agreed F))
  unfolding pay_refund
  refund-agrees s' refund is_pos same =
      Triple-when (ltb_ℤ (pos 0) refund)
        (λ some_left. rw same (
          Triple-bind (debit_pool-lowers e spares.on_post s.token refund is_pos)
            (λ _. token_transfer-Keeps e _ _ _ refund)))
        (λ w nothing p.
          let none_left : pos_part refund ≡ 0 = ground arith in
          record {
            sees = (
              retarget 0 _ (subst (λ n. Balanced s.token n 0 (view w)) none_left p.sees.0),
              p.sees.1,
            );
          })

  pub settle_cancel-agrees :
      (v r : ℤ)
      → Triple
          (λ w.
            Over (Held i s 0 0 F) w × (IsWellFormed e.now s × (quote_cancel s e.now ≡ ok (v, r))))
          (settle_cancel e i s v r)
          (λ _. Over (Agreed F))
  unfolding settle_cancel cancelled_event
  settle_cancel-agrees v r = given (λ q.
      let (is_pos, m) = settled-Moves e.now s q.1 q.0 in
      Triple-bind
        (save_stream-shifts (settled s e.now v) 0 0 (pos_part r) 0 m.token
          (let a = m.amount in omega (arith, a)))
        (λ _.
          Triple-bind (refund-agrees (settled s e.now v) r is_pos m.token)
            (λ _. Triple-bind (verify_pool_balance-Keeps e _) (λ _. publish-Keeps _))))
