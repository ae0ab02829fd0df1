-- ===== src/Contract/Keeps/Creation.antt =====
-- The entry points that create streams, from what `create_stream_inner` keeps.
use fluxora_contracts.Base.{List, [], ◌∷◌}
use fluxora_contracts.Types.{Address, BatchCreateRequest, default_cliff_mode}
use fluxora_contracts.Host.{Env, World}
use fluxora_contracts.Transition.Create.{StreamTerms}
use fluxora_contracts.Contract.Triple.{
  Keeps, Triple-bind, Triple-pure, Triple-lift, Keeps-reject_if,
}
use fluxora_contracts.Contract.Book.{unwrap-Keeps, require_auth-Keeps, require_not_halted-Keeps}
use fluxora_contracts.Contract.Create.{
  create_stream_inner, create_stream_with_cliff_mode, create_stream, create_stream_with_curve,
  create_stream_unchecked, create_all, batch_create, create_stream_via_factory,
}

module _ {L : Type 0} {P : World L → Type 0} (e : Env L) (sender : Address)
    (inner : (t : StreamTerms) → Keeps P (create_stream_inner e sender t)) where
  pub create_stream_with_cliff_mode-Keeps :
      (t : StreamTerms) → Keeps P (create_stream_with_cliff_mode e sender t)
  unfolding create_stream_with_cliff_mode
  create_stream_with_cliff_mode-Keeps t =
      Triple-bind require_not_halted-Keeps
        (λ _. Triple-bind (require_auth-Keeps e sender) (λ _. inner _))

  pub create_stream-Keeps : (t : StreamTerms) → Keeps P (create_stream e sender t)
  unfolding create_stream
  create_stream-Keeps t =
      create_stream_with_cliff_mode-Keeps (record t { cliff_mode = default_cliff_mode })

  pub create_stream_with_curve-Keeps :
      (t : StreamTerms) → Keeps P (create_stream_with_curve e sender t)
  unfolding create_stream_with_curve
  create_stream_with_curve-Keeps t =
      Triple-bind require_not_halted-Keeps
        (λ _. Triple-bind (require_auth-Keeps e sender) (λ _. inner _))

  create_all-Keeps : (rs : List BatchCreateRequest) → Keeps P (create_all e sender rs)
  unfolding create_all create_stream_unchecked
  create_all-Keeps [] = Triple-pure [] (λ w p. p)
  create_all-Keeps (r ∷ rs) =
      Triple-bind (inner _)
        (λ i. Triple-bind (create_all-Keeps rs) (λ is. Triple-pure (i ∷ is) (λ w p. p)))

  pub batch_create-Keeps : (rs : List BatchCreateRequest) → Keeps P (batch_create e sender rs)
  unfolding batch_create
  batch_create-Keeps rs = Triple-bind require_not_halted-Keeps (λ _.
      Triple-bind (Keeps-reject_if _ _) (λ _. Triple-bind (Keeps-reject_if _ _) (λ _.
        Triple-bind (require_auth-Keeps e sender)
          (λ _. Triple-bind (Triple-lift _ (λ u w eq p. p)) (λ _. create_all-Keeps rs)))))

  pub create_stream_via_factory-Keeps :
      (factory : Address) (t : StreamTerms) → Keeps P (create_stream_via_factory e factory sender t)
  unfolding create_stream_via_factory
  create_stream_via_factory-Keeps factory t = Triple-bind require_not_halted-Keeps (λ _.
      Triple-bind (require_auth-Keeps e sender) (λ _. Triple-bind (unwrap-Keeps _) (λ config.
        Triple-bind (Triple-lift _ (λ u w eq p. p)) (λ _.
          Triple-bind (unwrap-Keeps _)
            (λ allowed. Triple-bind (Keeps-reject_if _ _) (λ _. inner _))))))
