-- ===== src/Contract/Pool/Batches/Payouts.antt =====
-- The pools under `batch_withdraw`.
use fluxora_contracts.Base.{
  ℕ, ◌≡◌, refl, subst, sym, ap, ℤ, pos, eqb_ℤ, false, Option, none, some, List, [], ◌∷◌, inl, inr,
  Bool-cases,
}
use fluxora_contracts.Errors.{ok}
use fluxora_contracts.Types.{Address, Stream}
use fluxora_contracts.Accrual.{withdrawable}
use fluxora_contracts.Host.{Env, World}
use fluxora_contracts.Transition.Invariant.{IsWellFormed}
use fluxora_contracts.Contract.Triple.{
  Triple, Keeps, Triple-bind, Triple-weaken, Triple-pure, Triple-lift, Keeps-reject_if, Triple-if,
}
use fluxora_contracts.Contract.Book.{
  Book, Over, given, under_fact, ok_or-Keeps, require_auth-Keeps, require_not_halted-Keeps,
  extend_stream-Keeps, peek_stream-finds, verify_pool_balance-Keeps,
}
use fluxora_contracts.Contract.Guards.{contains}
use fluxora_contracts.Contract.Cancel.Batch.{validate_batch_ids-Keeps}
use fluxora_contracts.Contract.Withdraw.{
  Payout, resolve_payouts, pay, pay_all, reconcile, batch_withdraw,
}
use fluxora_contracts.Contract.Keeps.Batches.{all_chosen}
use fluxora_contracts.Contract.Pool.Settles.{Agree, Agreed, apply_withdrawal-agrees}
use fluxora_contracts.Contract.Pool.Keeps.{Level, Settles}
use fluxora_contracts.Contract.Pool.Batches.{
  Distinct, AllFound, ids, AllFound-Spares, first-Held, reject_duplicate_ids-Distinct,
}

abbrev paid : List Payout → List (ℕ × Stream)
paid [] = []
paid (p ∷ ps) = (p.stream_id, p.stream) ∷ paid ps

module _ {L : Type 0} (e : Env L) where
  abbrev Owed : Payout → Type 0
  Owed p = IsWellFormed e.now p.stream × (withdrawable p.stream e.now ≡ ok p.amount)

  abbrev AllOwed : List Payout → Type 0
  AllOwed [] = Unit
  AllOwed (p ∷ ps) = Owed p × AllOwed ps

  -- The members are found under the ids that were asked for, and whatever else was known still holds.
  abbrev Resolved : (Book → Type 0) → List ℕ → List Payout → World L → Type 0
  Resolved Q is ps w =
      Over (λ b. Q b × AllFound (paid ps) b) w × ((ids (paid ps) ≡ is) × AllOwed ps)

  resolve_payouts-Resolved :
      (Q : Book → Type 0)
      → ((b : Book) → Q b → Level e.now b)
      → (recipient : Address) (total : ℤ) (is : List ℕ)
      → Triple (Over Q) (resolve_payouts e recipient total is) (λ r. Resolved Q is r.1)
  unfolding resolve_payouts
  resolve_payouts-Resolved Q level recipient total [] =
      Triple-pure _ (λ w p. (record { sees = (p.sees, tt) }, (refl, tt)))
  resolve_payouts-Resolved Q level recipient total (i ∷ is) =
      Triple-bind (peek_stream-finds i) (λ s. Triple-bind (Keeps-reject_if _ _) (λ _.
        Triple-bind
          (Triple-lift
            {Q = λ a w.
              Over (λ b. Q b × (b.found i ≡ some s)) w
              × (IsWellFormed e.now s × (withdrawable s e.now ≡ ok a))}
            (withdrawable s e.now) (λ a w eq p. (p, ((level _ p.sees.0).0.every i s p.sees.1, eq))))
          (λ a. Triple-bind (ok_or-Keeps _ _) (λ t.
            Triple-bind
              (under_fact (
                resolve_payouts-Resolved (λ b. Q b × (b.found i ≡ some s)) (λ b q. level b q.0)
                  recipient t is))
              (λ r. Triple-pure _ (λ w p. (
                record { sees = (p.0.0.sees.0.0, (p.0.0.sees.0.1, p.0.0.sees.1)) },
                (ap (λ js. i ∷ js) p.0.1.0, (p.1, p.0.1.1)),
              )))))))

  pay-agrees :
      (p : Payout) (ms : List (ℕ × Stream))
      → contains p.stream_id (ids ms) ≡ false
      → Owed p
      → Triple
          (Over (Agreed (AllFound ((p.stream_id, p.stream) ∷ ms))))
          (pay e p)
          (λ _. Over (Agreed (AllFound ms)))
  unfolding pay
  pay-agrees p ms apart owed = elim (Bool-cases (eqb_ℤ p.amount (pos 0))) [
    | inl z ↦ rw z (
        Triple-weaken (λ w q. record { sees = (q.sees.0, q.sees.1.1) }) (λ a w q. q)
          (extend_stream-Keeps e p.stream_id p.stream))
    | inr z ↦ rw z (
        Triple-weaken
          (λ w q. (
            first-Held p.stream_id p.stream ms w q,
            (owed.0, all_chosen e p.stream p.amount owed.1 z),
          ))
          (λ a w q. q)
          (apply_withdrawal-agrees e p.stream_id p.stream (AllFound-Spares p.stream_id ms apart)
            none p.amount))
  ]

  pay_all-agrees :
      (ps : List Payout)
      → Distinct (ids (paid ps))
      → AllOwed ps
      → Triple (Over (Agreed (AllFound (paid ps)))) (pay_all e ps) (λ _. Over Agree)
  unfolding pay_all
  pay_all-agrees [] d owed = Triple-pure tt (λ w p. record { sees = p.sees.0 })
  pay_all-agrees (p ∷ ps) d owed =
      Triple-bind (pay-agrees p (paid ps) d.0 owed.0) (λ _. pay_all-agrees ps d.1 owed.1)

  reconcile-Keeps :
      {Q : Book → Type 0} (done : List Address) (ps : List Payout)
      → Keeps (Over Q) (reconcile e done ps)
  unfolding reconcile
  reconcile-Keeps done [] = Triple-pure tt (λ w p. p)
  reconcile-Keeps done (p ∷ ps) =
      Triple-if (contains p.stream.token done) (reconcile-Keeps done ps) (
        Triple-bind (verify_pool_balance-Keeps e p.stream.token)
          (λ _. reconcile-Keeps (p.stream.token ∷ done) ps))

  pub batch_withdraw-Settles :
      (recipient : Address) (raws : List (Option ℕ)) → Settles e (batch_withdraw e recipient raws)
  unfolding batch_withdraw
  batch_withdraw-Settles recipient raws = Triple-bind require_not_halted-Keeps (λ _.
      Triple-bind (validate_batch_ids-Keeps raws) (λ is.
        Triple-bind (reject_duplicate_ids-Distinct is) (λ _. given (λ distinct.
          Triple-bind (require_auth-Keeps e recipient) (λ _.
            Triple-bind (resolve_payouts-Resolved (Level e.now) (λ b q. q) recipient _ is) (λ r.
              given (λ known.
                Triple-bind
                  (Triple-weaken (λ w p. record { sees = (p.sees.0.1, p.sees.1) }) (λ a w q. q)
                    (pay_all-agrees r.1 (subst Distinct (sym known.0) distinct) known.1))
                  (λ _.
                    Triple-bind (reconcile-Keeps [] r.1) (λ _. Triple-pure r.0 (λ w p. p))))))))))
