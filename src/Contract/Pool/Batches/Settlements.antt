-- ===== src/Contract/Pool/Batches/Settlements.antt =====
-- The pools under `batch_cancel`.
use fluxora_contracts.Base.{
  ℕ, ◌+◌, ◌≡◌, refl, subst, sym, ap, ℤ, pos, Option, some, List, [], ◌∷◌, inl, inr,
}
use fluxora_contracts.Errors.{ok}
use fluxora_contracts.Types.{Address, Stream}
use fluxora_contracts.Host.{Env, World}
use fluxora_contracts.Transition.Cancel.{quote_cancel}
use fluxora_contracts.Transition.Invariant.{IsWellFormed}
use fluxora_contracts.Contract.Triple.{
  Triple, Triple-bind, Triple-weaken, Triple-pure, Triple-lift, Keeps-reject_if,
}
use fluxora_contracts.Contract.Book.{Book, Over, given, require_auth-Keeps, peek_stream-finds}
use fluxora_contracts.Contract.Cancel.Batch.{validate_batch_ids-Keeps}
use fluxora_contracts.Contract.Cancel.{
  Settlement, Quotes, add_settlement, priced, refused, price_all, resolve_owned, settle_all,
  conclude, batch_cancel,
}
use fluxora_contracts.Contract.Keeps.Batches.{price_all-cases}
use fluxora_contracts.Contract.Pool.Settles.{Agree, Agreed, settle_cancel-agrees}
use fluxora_contracts.Contract.Pool.Keeps.{Level, Settles}
use fluxora_contracts.Contract.Pool.Batches.{
  Distinct, AllFound, ids, AllFound-Spares, first-Held, reject_duplicate_ids-Distinct,
}

-- Settlements of the members of a batch, each as it was quoted.
abbrev quoted : List Settlement → List (ℕ × Stream)
quoted [] = []
quoted (p ∷ ps) = (p.stream_id, p.stream) ∷ quoted ps

abbrev AllQuoted : ℕ → List Settlement → Type 0
AllQuoted now [] = Unit
AllQuoted now (p ∷ ps) =
    (quote_cancel p.stream now ≡ ok (p.vested_now, p.refund)) × AllQuoted now ps

-- A batch that is priced is priced member by member.
abbrev Priced : ℕ → List (ℕ × Stream) → Quotes → Type 0
Priced now ms (priced total ps) = (quoted ps ≡ ms) × AllQuoted now ps
Priced now ms (refused i reason) = Unit

Priced-add :
    (now : ℕ) (p : Settlement) (ms : List (ℕ × Stream)) (q : Quotes)
    → quote_cancel p.stream now ≡ ok (p.vested_now, p.refund)
    → Priced now ms q
    → Priced now ((p.stream_id, p.stream) ∷ ms) (add_settlement p q)
Priced-add now p ms (priced total ps) h k = (ap (λ rs. (p.stream_id, p.stream) ∷ rs) k.0, (h, k.1))
Priced-add now p ms (refused i reason) h k = tt

price_all-Priced :
    (now i : ℕ) (total : ℤ) (ms : List (ℕ × Stream)) (q : Quotes)
    → price_all now i total ms ≡ ok q
    → Priced now ms q
unfolding price_all
price_all-Priced now i total [] q e =
    let same : priced total [] ≡ q = cc in subst (Priced now []) same (refl, tt)
price_all-Priced now i total ((k, s) ∷ rest) q e = elim (price_all-cases now i total k s rest q e) [
  | inl (reason, same) ↦ subst (Priced now ((k, s) ∷ rest)) (sym same) tt
  | inr (v, r, total', qs, quote, priced_rest, same) ↦
      subst (Priced now ((k, s) ∷ rest)) (sym same) (
        Priced-add now record { stream_id = k; stream = s; vested_now = v; refund = r } rest qs
          quote (price_all-Priced now (i + 1) total' rest qs priced_rest))
]

abbrev AllFormed : ℕ → List (ℕ × Stream) → Type 0
AllFormed now [] = Unit
AllFormed now (m ∷ ms) = IsWellFormed now m.1 × AllFormed now ms

module _ {L : Type 0} (e : Env L) where
  abbrev Owned : (Book → Type 0) → List ℕ → List (ℕ × Stream) → World L → Type 0
  Owned Q is ms w = Over (λ b. Q b × AllFound ms b) w × ((ids ms ≡ is) × AllFormed e.now ms)

  resolve_owned-Owned :
      (Q : Book → Type 0)
      → ((b : Book) → Q b → Level e.now b)
      → (sender : Address) (is : List ℕ) → Triple (Over Q) (resolve_owned sender is) (Owned Q is)
  unfolding resolve_owned
  resolve_owned-Owned Q level sender [] =
      Triple-pure _ (λ w p. (record { sees = (p.sees, tt) }, (refl, tt)))
  resolve_owned-Owned Q level sender (i ∷ is) = Triple-bind (peek_stream-finds i) (λ s.
      Triple-bind (Keeps-reject_if _ _) (λ _.
        Triple-bind
          (resolve_owned-Owned (λ b. Q b × (b.found i ≡ some s)) (λ b q. level b q.0) sender is)
          (λ ms. Triple-pure _ (λ w p. (
            record { sees = (p.0.sees.0.0, (p.0.sees.0.1, p.0.sees.1)) },
            (ap (λ js. i ∷ js) p.1.0, ((level _ p.0.sees.0.0).0.every i s p.0.sees.0.1, p.1.1)),
          )))))

  settle_all-agrees :
      (ps : List Settlement)
      → Distinct (ids (quoted ps))
      → AllQuoted e.now ps
      → AllFormed e.now (quoted ps)
      → Triple (Over (Agreed (AllFound (quoted ps)))) (settle_all e ps) (λ _. Over Agree)
  unfolding settle_all
  settle_all-agrees [] d q f = Triple-pure tt (λ w p. record { sees = p.sees.0 })
  settle_all-agrees (p ∷ ps) d q f =
      Triple-bind
        (Triple-weaken (λ w h. (first-Held p.stream_id p.stream (quoted ps) w h, (f.0, q.0)))
          (λ a w h. h)
          (settle_cancel-agrees e p.stream_id p.stream (AllFound-Spares p.stream_id (quoted ps) d.0)
            p.vested_now p.refund))
        (λ _. settle_all-agrees ps d.1 q.1 f.1)

  conclude-agrees :
      (ms : List (ℕ × Stream)) (q : Quotes)
      → Distinct (ids ms)
      → AllFormed e.now ms
      → Priced e.now ms q
      → Triple (Over (Agreed (AllFound ms))) (conclude e q) (λ _. Over Agree)
  unfolding conclude
  conclude-agrees ms (refused i reason) d f h = Triple-pure _ (λ w p. record { sees = p.sees.0 })
  conclude-agrees ms (priced total ps) d f h =
      Triple-bind
        (rw (sym h.0) (
          settle_all-agrees ps (subst (λ rs. Distinct (ids rs)) (sym h.0) d) h.1
            (subst (AllFormed e.now) (sym h.0) f)))
        (λ _. Triple-pure _ (λ w p. p))

  pub batch_cancel-Settles :
      (sender : Address) (raws : List (Option ℕ)) → Settles e (batch_cancel e sender raws)
  unfolding batch_cancel
  batch_cancel-Settles sender raws = Triple-bind (validate_batch_ids-Keeps raws) (λ is.
      Triple-bind (reject_duplicate_ids-Distinct is) (λ _. given (λ distinct.
        Triple-bind (require_auth-Keeps e sender) (λ _.
          Triple-bind (resolve_owned-Owned (Level e.now) (λ b q. q) sender is) (λ ms.
            given (λ known.
              Triple-bind
                (Triple-lift
                  {Q = λ q w. Over (λ b. Level e.now b × AllFound ms b) w × Priced e.now ms q}
                  (price_all e.now 0 (pos 0) ms)
                  (λ q w eq p. (p, price_all-Priced e.now 0 (pos 0) ms q eq)))
                (λ q. given (λ quotes.
                  Triple-weaken (λ w p. record { sees = (p.sees.0.1, p.sees.1) }) (λ a w p. p)
                    (conclude-agrees ms q (subst Distinct (sym known.0) distinct) known.1
                      quotes)))))))))
