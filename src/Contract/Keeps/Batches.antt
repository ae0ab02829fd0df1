-- ===== src/Contract/Keeps/Batches.antt =====
-- Well-formedness of all streams under `batch_withdraw` and `batch_cancel`.
use fluxora_contracts.Base.{
  ℕ, ◌+◌, ℤ, pos, ◌≡◌, ◌⊎◌, subst, sym, Option, none, List, [], ◌∷◌, arith, false, eqb_ℤ,
  checked_add, Option-cases, inl, inr, Bool-cases,
}
use fluxora_contracts.Errors.{Error, ok, Result-cases}
use fluxora_contracts.Types.{Address, Stream}
use fluxora_contracts.Accrual.{withdrawable}
use fluxora_contracts.Host.{Env}
use fluxora_contracts.Transition.Withdraw.{choose_payout}
use fluxora_contracts.Transition.Cancel.{quote_cancel, settled}
use fluxora_contracts.Transition.Invariant.{IsWellFormed}
use fluxora_contracts.Transition.Invariant.Pays.{settled-IsWellFormed}
use fluxora_contracts.Contract.Triple.{
  Triple, Keeps, Triple-bind, Triple-weaken, Triple-pure, Keeps-reject_if, Triple-if,
}
use fluxora_contracts.Contract.Book.{
  ok_or-Keeps, require_auth-Keeps, extend_stream-Keeps, require_not_halted-Keeps,
  verify_pool_balance-Keeps, forget_fact, under_fact,
}
use fluxora_contracts.Contract.Frame.{peek_stream-finds}
use fluxora_contracts.Contract.Guards.{contains}
use fluxora_contracts.Contract.Cancel.Batch.{validate_batch_ids-Keeps, reject_duplicate_ids-Keeps}
use fluxora_contracts.Contract.Withdraw.{
  Payout, resolve_payouts, pay, pay_all, reconcile, batch_withdraw,
}
use fluxora_contracts.Contract.Cancel.{
  Settlement, Quotes, add_settlement, priced, refused, price_all, resolve_owned, settle_all,
  conclude, batch_cancel,
}
use fluxora_contracts.Contract.Keeps.{
  AllWellFormed, apply_withdrawal-keeps, settle_cancel-keeps, lift-keeps,
}

module _ {L : Type 0} (e : Env L) where
  -- Members that are priced, each from a well-formed stream.
  abbrev Owed : Payout → Type 0
  Owed p = IsWellFormed e.now p.stream × (withdrawable p.stream e.now ≡ ok p.amount)

  abbrev AllOwed : List Payout → Type 0
  AllOwed [] = Unit
  AllOwed (p ∷ ps) = Owed p × AllOwed ps

  resolve_payouts-AllOwed :
      (recipient : Address) (total : ℤ) (ids : List ℕ)
      → Triple
          (AllWellFormed e.now)
          (resolve_payouts e recipient total ids)
          (λ r w. AllWellFormed e.now w × AllOwed r.1)
  unfolding resolve_payouts
  resolve_payouts-AllOwed recipient total [] = Triple-pure _ (λ w p. (p, tt))
  resolve_payouts-AllOwed recipient total (i ∷ ids) = Triple-bind (peek_stream-finds i) (λ s.
      Triple-bind (Keeps-reject_if _ _) (λ _.
        Triple-bind
          (lift-keeps e (withdrawable s e.now)
            (λ a. IsWellFormed e.now s × (withdrawable s e.now ≡ ok a)) (λ a eq h. (h, eq)))
          (λ a. Triple-bind (ok_or-Keeps _ _) (λ t.
            Triple-bind (under_fact (resolve_payouts-AllOwed recipient t ids))
              (λ r. Triple-pure _ (λ w p. (p.0.0, (p.1, p.0.1))))))))

  pub all_chosen :
      (s : Stream) (a : ℤ)
      → withdrawable s e.now ≡ ok a
      → eqb_ℤ a (pos 0) ≡ false
      → choose_payout s e.now none ≡ ok a
  unfolding choose_payout
  all_chosen s a h n = ground arith

  pay-Keeps :
      (p : Payout)
      → Triple (λ w. AllWellFormed e.now w × Owed p) (pay e p) (λ _. AllWellFormed e.now)
  unfolding pay
  pay-Keeps p = elim (Bool-cases (eqb_ℤ p.amount (pos 0))) [
    | inl z ↦ rw z (forget_fact (extend_stream-Keeps e p.stream_id p.stream))
    | inr z ↦ rw z (
        Triple-weaken (λ w q. (q.0, (q.1.0, all_chosen p.stream p.amount q.1.1 z))) (λ a w q. q)
          (apply_withdrawal-keeps e p.stream_id p.stream none p.amount))
  ]

  pay_all-Keeps :
      (ps : List Payout)
      → Triple (λ w. AllWellFormed e.now w × AllOwed ps) (pay_all e ps) (λ _. AllWellFormed e.now)
  unfolding pay_all
  pay_all-Keeps [] = Triple-pure tt (λ w p. p.0)
  pay_all-Keeps (p ∷ ps) =
      Triple-bind
        (Triple-weaken (λ w q. ((q.0, q.1.0), q.1.1)) (λ a w q. q) (under_fact (pay-Keeps p)))
        (λ _. pay_all-Keeps ps)

  reconcile-Keeps :
      (done : List Address) (ps : List Payout) → Keeps (AllWellFormed e.now) (reconcile e done ps)
  unfolding reconcile
  reconcile-Keeps done [] = Triple-pure tt (λ w p. p)
  reconcile-Keeps done (p ∷ ps) =
      Triple-if (contains p.stream.token done) (reconcile-Keeps done ps) (
        Triple-bind (verify_pool_balance-Keeps e p.stream.token)
          (λ _. reconcile-Keeps (p.stream.token ∷ done) ps))

  pub batch_withdraw-Keeps :
      (recipient : Address) (raws : List (Option ℕ))
      → Keeps (AllWellFormed e.now) (batch_withdraw e recipient raws)
  unfolding batch_withdraw
  batch_withdraw-Keeps recipient raws = Triple-bind require_not_halted-Keeps (λ _.
      Triple-bind (validate_batch_ids-Keeps raws) (λ ids.
        Triple-bind (reject_duplicate_ids-Keeps ids) (λ _.
          Triple-bind (require_auth-Keeps e recipient) (λ _.
            Triple-bind (resolve_payouts-AllOwed recipient _ ids) (λ r.
              Triple-bind (pay_all-Keeps r.1)
                (λ _. Triple-bind (reconcile-Keeps [] r.1) (λ _. Triple-pure r.0 (λ w p. p))))))))

abbrev AllFormed : ℕ → List (ℕ × Stream) → Type 0
AllFormed now [] = Unit
AllFormed now (m ∷ ms) = IsWellFormed now m.1 × AllFormed now ms

abbrev AllSettled : ℕ → List Settlement → Type 0
AllSettled now [] = Unit
AllSettled now (p ∷ ps) = IsWellFormed now (settled p.stream now p.vested_now) × AllSettled now ps

-- A batch that is priced can be settled.
abbrev Sound : ℕ → Quotes → Type 0
Sound now (priced total ps) = AllSettled now ps
Sound now (refused i reason) = Unit

Sound-add :
    (now : ℕ) (p : Settlement) (q : Quotes)
    → IsWellFormed now (settled p.stream now p.vested_now)
    → Sound now q
    → Sound now (add_settlement p q)
Sound-add now p (priced total ps) h k = (h, k)
Sound-add now p (refused i reason) h k = tt

pub price_all-cases :
    (now i : ℕ) (total : ℤ) (k : ℕ) (s : Stream) (rest : List (ℕ × Stream)) (q : Quotes)
    → price_all now i total ((k, s) ∷ rest) ≡ ok q
    → ((reason : Error) × (q ≡ refused i reason))
      ⊎ ((v : ℤ) × (r : ℤ) × (total' : ℤ) × (qs : Quotes) × (quote_cancel s now ≡ ok (v, r))
          × (price_all now (i + 1) total' rest ≡ ok qs)
          × (q
              ≡ add_settlement record { stream_id = k; stream = s; vested_now = v; refund = r } qs))
unfolding price_all
price_all-cases now i total k s rest q e = elim (Result-cases (quote_cancel s now)) [
  | inl ((v, r), quoted) ↦ elim (Option-cases (checked_add total r)) [
    | inl over ↦ absurd (ground arith)
    | inr (total', sum) ↦ elim (Result-cases (price_all now (i + 1) total' rest)) [
      | inl (qs, priced_rest) ↦ inr (v, r, total', qs, quoted, priced_rest, ground arith)
      | inr bad ↦ absurd (ground arith)
    ]
  ]
  | inr (inl (reason, refusal)) ↦ inl (reason, ground arith)
  | inr (inr bad) ↦ absurd (ground arith)
]

price_all-Sound :
    (now i : ℕ) (total : ℤ) (ms : List (ℕ × Stream)) (q : Quotes)
    → price_all now i total ms ≡ ok q
    → AllFormed now ms
    → Sound now q
unfolding price_all
price_all-Sound now i total [] q e h =
    let same : priced total [] ≡ q = cc in subst (Sound now) same tt
price_all-Sound now i total ((k, s) ∷ rest) q e h =
    elim (price_all-cases now i total k s rest q e) [
      | inl (reason, same) ↦ subst (Sound now) (sym same) tt
      | inr (v, r, total', qs, quoted, priced_rest, same) ↦ subst (Sound now) (sym same) (
          Sound-add now record { stream_id = k; stream = s; vested_now = v; refund = r } qs
            (settled-IsWellFormed now s quoted h.0)
            (price_all-Sound now (i + 1) total' rest qs priced_rest h.1))
    ]

module _ {L : Type 0} (e : Env L) where
  resolve_owned-AllFormed :
      (sender : Address) (ids : List ℕ)
      → Triple {L = L}
          (AllWellFormed e.now)
          (resolve_owned sender ids)
          (λ ms w. AllWellFormed e.now w × AllFormed e.now ms)
  unfolding resolve_owned
  resolve_owned-AllFormed sender [] = Triple-pure [] (λ w p. (p, tt))
  resolve_owned-AllFormed sender (i ∷ ids) = Triple-bind (peek_stream-finds i) (λ s.
      Triple-bind (Keeps-reject_if _ _) (λ _.
        Triple-bind (under_fact (resolve_owned-AllFormed sender ids))
          (λ ms. Triple-pure ((i, s) ∷ ms) (λ w p. (p.0.0, (p.1, p.0.1))))))

  settle_all-Keeps :
      (ps : List Settlement)
      → Triple
          (λ w. AllWellFormed e.now w × AllSettled e.now ps)
          (settle_all e ps)
          (λ _. AllWellFormed e.now)
  unfolding settle_all
  settle_all-Keeps [] = Triple-pure tt (λ w p. p.0)
  settle_all-Keeps (p ∷ ps) =
      Triple-bind
        (Triple-weaken (λ w q. ((q.0, q.1.0), q.1.1)) (λ a w q. q)
          (under_fact (settle_cancel-keeps e p.stream_id p.stream p.vested_now p.refund)))
        (λ _. settle_all-Keeps ps)

  conclude-Keeps :
      (q : Quotes)
      → Triple
          (λ w. AllWellFormed e.now w × Sound e.now q)
          (conclude e q)
          (λ _. AllWellFormed e.now)
  unfolding conclude
  conclude-Keeps (refused i reason) = Triple-pure _ (λ w p. p.0)
  conclude-Keeps (priced total ps) =
      Triple-bind (settle_all-Keeps ps) (λ _. Triple-pure _ (λ w p. p))

  pub batch_cancel-Keeps :
      (sender : Address) (raws : List (Option ℕ))
      → Keeps (AllWellFormed e.now) (batch_cancel e sender raws)
  unfolding batch_cancel
  batch_cancel-Keeps sender raws = Triple-bind (validate_batch_ids-Keeps raws) (λ ids.
      Triple-bind (reject_duplicate_ids-Keeps ids) (λ _.
        Triple-bind (require_auth-Keeps e sender) (λ _.
          Triple-bind (resolve_owned-AllFormed sender ids) (λ ms.
            Triple-bind
              (lift-keeps e (price_all e.now 0 (pos 0) ms) (Sound e.now)
                (λ q eq h. price_all-Sound e.now 0 (pos 0) ms q eq h))
              conclude-Keeps))))
