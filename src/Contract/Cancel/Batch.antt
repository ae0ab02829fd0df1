-- ===== src/Contract/Cancel/Batch.antt =====
-- `batch_cancel` where it reports a refused member.
use fluxora_contracts.Base.{ℕ, pos, ◌≡◌, refl, Option, some, List, [], ◌∷◌}
use fluxora_contracts.Errors.{ok}
use fluxora_contracts.Types.{Address, BatchCancelOutcome}
use fluxora_contracts.Host.{Env, World}
use fluxora_contracts.Contract.Triple.{
  Triple, Keeps, Triple-bind, Triple-pure, Triple-lift, Keeps-reject_if,
}
use fluxora_contracts.Contract.Book.{peek_stream-Keeps, ok_or-Keeps, require_auth-Keeps}
use fluxora_contracts.Contract.Guards.{validate_batch_ids, convert_ids, reject_duplicate_ids}
use fluxora_contracts.Contract.Cancel.{
  Quotes, priced, refused, resolve_owned, conclude, batch_cancel,
}

module _ {L : Type 0} {P : World L → Type 0} where
  convert_ids-Keeps : (raws : List (Option ℕ)) → Keeps P (convert_ids raws)
  unfolding convert_ids
  convert_ids-Keeps [] = Triple-pure [] (λ w p. p)
  convert_ids-Keeps (raw ∷ raws) =
      Triple-bind (ok_or-Keeps raw _)
        (λ i. Triple-bind (convert_ids-Keeps raws) (λ is. Triple-pure (i ∷ is) (λ w p. p)))

  pub validate_batch_ids-Keeps : (raws : List (Option ℕ)) → Keeps P (validate_batch_ids raws)
  unfolding validate_batch_ids
  validate_batch_ids-Keeps raws =
      Triple-bind (Keeps-reject_if _ _)
        (λ _. Triple-bind (Keeps-reject_if _ _) (λ _. convert_ids-Keeps raws))

  pub reject_duplicate_ids-Keeps : (ids : List ℕ) → Keeps P (reject_duplicate_ids ids)
  unfolding reject_duplicate_ids
  reject_duplicate_ids-Keeps [] = Triple-pure tt (λ w p. p)
  reject_duplicate_ids-Keeps (i ∷ ids) =
      Triple-bind (Keeps-reject_if _ _) (λ _. reject_duplicate_ids-Keeps ids)

  resolve_owned-Keeps : (sender : Address) (ids : List ℕ) → Keeps P (resolve_owned sender ids)
  unfolding resolve_owned
  resolve_owned-Keeps sender [] = Triple-pure [] (λ w p. p)
  resolve_owned-Keeps sender (i ∷ ids) = Triple-bind (peek_stream-Keeps i) (λ s.
      Triple-bind (Keeps-reject_if _ _) (λ _.
        Triple-bind (resolve_owned-Keeps sender ids)
          (λ rest. Triple-pure ((i, s) ∷ rest) (λ w p. p))))

-- A refusal that is reported comes with the world as it was.
abbrev Untouched : {L : Type 0} → World L → BatchCancelOutcome → World L → Type 0
Untouched w o w' = (k : ℕ) → o.refused_index ≡ some k → (w' ≡ w) × (o.refunded ≡ pos 0)

module _ {L : Type 0} (e : Env L) (w : World L) where
  conclude-Untouched : (quotes : Quotes) → Triple (λ v. v ≡ w) (conclude e quotes) (Untouched w)
  unfolding conclude
  conclude-Untouched (refused i reason) = Triple-pure _ (λ v p k h. (p, refl))
  conclude-Untouched (priced total ps) =
      Triple-bind {Q = λ _ _. Unit} (record { holds = λ v a v' p h. tt })
        (λ _. Triple-pure _ (λ v p k h. cc h))

  batch_cancel-Untouched :
      (sender : Address) (raws : List (Option ℕ))
      → Triple (λ v. v ≡ w) (batch_cancel e sender raws) (Untouched w)
  unfolding batch_cancel
  batch_cancel-Untouched sender raws = Triple-bind (validate_batch_ids-Keeps raws) (λ ids.
      Triple-bind (reject_duplicate_ids-Keeps ids) (λ _.
        Triple-bind (require_auth-Keeps e sender) (λ _.
          Triple-bind (resolve_owned-Keeps sender ids)
            (λ streams. Triple-bind (Triple-lift _ (λ q v eq p. p)) conclude-Untouched))))

  -- When `batch_cancel` answers with a refused member, the world is exactly what it was, and the
  -- reported refund is zero.
  pub batch_cancel-refused :
      (sender : Address) (raws : List (Option ℕ)) (o : BatchCancelOutcome) (w' : World L) (k : ℕ)
      → batch_cancel e sender raws w ≡ ok (o, w')
      → o.refused_index ≡ some k
      → (w' ≡ w) × (o.refunded ≡ pos 0)
  batch_cancel-refused sender raws o w' k h refusal =
      (batch_cancel-Untouched sender raws).holds w o w' refl h k refusal
