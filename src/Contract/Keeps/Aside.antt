-- ===== src/Contract/Keeps/Aside.antt =====
-- The book under the entry points that administer the halt, the grants and the rent.
use fluxora_contracts.Base.{ℕ, ◌+◌, refl, Option, none, some, List, [], ◌∷◌}
use fluxora_contracts.Types.{Address, Stream, DelegateGrant}
use fluxora_contracts.Host.{Env}
use fluxora_contracts.Storage
use fluxora_contracts.Storage.{save_delegate, remove_delegate, set_halt, clear_halt}
use fluxora_contracts.Publish.{
  delegate_granted, delegate_revoked, halt_operator_set, contract_halted, contract_resumed,
  ttl_extended,
}
use fluxora_contracts.Contract.Triple.{
  Keeps, Triple-bind, Triple-pure, Keeps-when, Keeps-reject_if, Triple-if,
}
use fluxora_contracts.Contract.Book.{
  Book, Over, view, gets-Keeps, ok_or-Keeps, unwrap-Keeps, require_auth-Keeps, publish-Keeps,
  rent-Keeps, unchanged, extend_instance-Keeps, extend_stream-Keeps, require_not_halted-Keeps,
  load_stream-Keeps, peek_stream-Keeps,
}
use fluxora_contracts.Contract.Cancel.Batch.{validate_batch_ids-Keeps, reject_duplicate_ids-Keeps}
use fluxora_contracts.Contract.Delegates.{
  has_any, sender_ops, recipient_ops, grant_from, grant_delegate, revoke_delegate,
}
use fluxora_contracts.Contract.Halt.{set_halt_operator, halt, resume_contract}
use fluxora_contracts.Contract.Maintenance.{
  extend_stream_ttl, extend_member, extend_all, batch_extend_ttl,
}

module _ {L : Type 0} {Q : Book → Type 0} (e : Env L) where
  pub set_halt_operator-Keeps : (a : Address) → Keeps (Over Q) (set_halt_operator e a)
  unfolding set_halt_operator Storage.set_halt_operator Storage.find_stream Storage.pooled_balance
      view halt_operator_set
  set_halt_operator-Keeps a = Triple-bind (require_auth-Keeps e a) (λ _.
      Triple-bind (gets-Keeps _) (λ installed. Triple-bind (Keeps-reject_if _ _) (λ _.
        Triple-bind (Triple-bind (unchanged _ (λ w. refl)) (λ _. extend_instance-Keeps e))
          (λ _. publish-Keeps _))))

  pub halt-Keeps : Keeps (Over Q) (halt e)
  unfolding halt set_halt Storage.find_stream Storage.pooled_balance view contract_halted
  halt-Keeps = Triple-bind (gets-Keeps _) (λ o. Triple-bind (ok_or-Keeps _ _) (λ a.
      Triple-bind (require_auth-Keeps e a) (λ _. Triple-bind (gets-Keeps _) (λ h.
        Triple-bind (Keeps-reject_if _ _) (λ _.
          Triple-bind (Triple-bind (unchanged _ (λ w. refl)) (λ _. extend_instance-Keeps e))
            (λ _. publish-Keeps _))))))

  pub resume_contract-Keeps : Keeps (Over Q) (resume_contract e)
  unfolding resume_contract clear_halt Storage.find_stream Storage.pooled_balance view
      contract_resumed
  resume_contract-Keeps = Triple-bind (gets-Keeps _) (λ o. Triple-bind (ok_or-Keeps _ _) (λ a.
      Triple-bind (require_auth-Keeps e a) (λ _. Triple-bind (gets-Keeps _) (λ h.
        Triple-bind (ok_or-Keeps _ _) (λ t.
          Triple-bind (Triple-bind (unchanged _ (λ w. refl)) (λ _. extend_instance-Keeps e))
            (λ _. publish-Keeps _))))))

  save_delegate-Keeps :
      (i : ℕ) (d : Address) (g : DelegateGrant) → Keeps (Over Q) (save_delegate e i d g)
  unfolding save_delegate Storage.find_stream Storage.pooled_balance view
  save_delegate-Keeps i d g =
      Triple-bind (unchanged _ (λ w. refl))
        (λ _. Triple-bind (gets-Keeps _) (λ o. Triple-bind (unwrap-Keeps o) (λ s. rent-Keeps _)))

  grant_from-Keeps :
      (i : ℕ) (owner grantor d : Address) (ops : ℕ) (x : Option ℕ)
      → Keeps (Over Q) (grant_from e i owner grantor d ops x)
  unfolding grant_from delegate_granted
  grant_from-Keeps i owner grantor d ops x = Triple-bind (Keeps-reject_if _ _) (λ _.
      Triple-bind (require_auth-Keeps e grantor)
        (λ _. Triple-bind (save_delegate-Keeps i d _) (λ _. publish-Keeps _)))

  pub grant_delegate-Keeps :
      (i : ℕ) (grantor d : Address) (ops : ℕ) (x : Option ℕ)
      → Keeps (Over Q) (grant_delegate e i grantor d ops x)
  unfolding grant_delegate
  grant_delegate-Keeps i grantor d ops x = Triple-bind require_not_halted-Keeps (λ _.
      Triple-bind (load_stream-Keeps e i) (λ s.
        (Triple-bind (Keeps-reject_if _ _) (λ _. Triple-bind (Keeps-reject_if _ _) (λ _.
          Triple-if (has_any ops sender_ops) (grant_from-Keeps i s.sender grantor d ops x) (
            Triple-if (has_any ops recipient_ops) (grant_from-Keeps i s.recipient grantor d ops x)
              (Triple-pure tt (λ w p. p))))))))

  pub revoke_delegate-Keeps :
      (i : ℕ) (grantor d : Address) → Keeps (Over Q) (revoke_delegate e i grantor d)
  unfolding revoke_delegate remove_delegate Storage.find_stream Storage.pooled_balance view
      delegate_revoked
  revoke_delegate-Keeps i grantor d = Triple-bind require_not_halted-Keeps (λ _.
      Triple-bind (load_stream-Keeps e i) (λ s.
        (Triple-bind (Keeps-reject_if _ _) (λ _. Triple-bind (require_auth-Keeps e grantor) (λ _.
          Triple-bind (Triple-bind (gets-Keeps _) (λ here. Keeps-when _ (unchanged _ (λ w. refl))))
            (λ _. publish-Keeps _))))))

  extend_member-Keeps : (i n : ℕ) (o : Option Stream) → Keeps (Over Q) (extend_member e i n o)
  unfolding extend_member ttl_extended
  extend_member-Keeps i n none = Triple-pure n (λ w p. p)
  extend_member-Keeps i n (some s) = Triple-bind (Keeps-reject_if _ _) (λ _.
      Triple-bind (extend_stream-Keeps e i s)
        (λ _. Triple-bind (publish-Keeps _) (λ _. Triple-pure (n + 1) (λ w p. p))))

  extend_all-Keeps : (n : ℕ) (ids : List ℕ) → Keeps (Over Q) (extend_all e n ids)
  unfolding extend_all
  extend_all-Keeps n [] = Triple-pure n (λ w p. p)
  extend_all-Keeps n (i ∷ ids) =
      Triple-bind (gets-Keeps _)
        (λ o. Triple-bind (extend_member-Keeps i n o) (λ m. extend_all-Keeps m ids))

  pub batch_extend_ttl-Keeps : (raws : List (Option ℕ)) → Keeps (Over Q) (batch_extend_ttl e raws)
  unfolding batch_extend_ttl
  batch_extend_ttl-Keeps raws = Triple-bind require_not_halted-Keeps (λ _.
      Triple-bind (validate_batch_ids-Keeps raws) (λ ids.
        Triple-bind (reject_duplicate_ids-Keeps ids) (λ _.
          Triple-bind (extend_all-Keeps 0 ids)
            (λ n. Triple-bind (extend_instance-Keeps e) (λ _. Triple-pure n (λ w p. p))))))

  pub extend_stream_ttl-Keeps : (i : ℕ) → Keeps (Over Q) (extend_stream_ttl e i)
  unfolding extend_stream_ttl ttl_extended
  extend_stream_ttl-Keeps i = Triple-bind require_not_halted-Keeps (λ _.
      Triple-bind (peek_stream-Keeps i) (λ s.
        (Triple-bind (Keeps-reject_if _ _) (λ _. Triple-bind (extend_stream-Keeps e i s) (λ _.
          Triple-bind (extend_instance-Keeps e)
            (λ _. Triple-bind (publish-Keeps _) (λ _. Triple-pure _ (λ w p. p))))))))
