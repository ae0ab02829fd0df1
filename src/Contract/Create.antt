-- ===== src/Contract/Create.antt =====
-- Creating streams: `create_stream`, its variants for a cliff mode and a curve, `batch_create` and
-- `create_stream_via_factory`.
use fluxora_contracts.Base.{ℕ, ltb, ◌==◌, not, none, List, [], ◌∷◌}
use fluxora_contracts.Errors.{empty_batch, batch_too_large, token_not_allowlisted}
use fluxora_contracts.Types.{Address, default_cliff_mode, linear, BatchCreateRequest}
use fluxora_contracts.Host.{Env, Call, pure, lift, unwrap, reject_if, require_auth, ◌>>=◌, ◌>>◌}
use fluxora_contracts.Storage.{next_stream_id, save_stream, extend_instance}
use fluxora_contracts.Publish.{stream_created}
use fluxora_contracts.Transition.Create.{
  StreamTerms, check_terms, new_stream, request_terms, check_requests, check_policy,
}
use fluxora_contracts.Contract.Guards.{max_batch_size, length, require_not_halted}
use fluxora_contracts.Contract.Payments.{pull_deposit}

module _ {L : Type 0} where
  unfoldable pub create_stream_inner : Env L → Address → StreamTerms → Call L ℕ
  create_stream_inner e sender t = do
    lift (check_terms sender t)
    stream_id ← next_stream_id e
    pull_deposit e t.token sender t.deposit
    save_stream e stream_id (new_stream sender t)
    extend_instance e
    stream_created stream_id (new_stream sender t)
    pure stream_id

  -- The source passes the linear curve.
  unfoldable pub create_stream_with_cliff_mode : Env L → Address → StreamTerms → Call L ℕ
  create_stream_with_cliff_mode e sender t = do
    require_not_halted
    require_auth e sender
    create_stream_inner e sender (record t { curve = linear })

  unfoldable pub create_stream : Env L → Address → StreamTerms → Call L ℕ
  unfolding create_stream_with_cliff_mode
  create_stream e sender t =
      create_stream_with_cliff_mode e sender (record t { cliff_mode = default_cliff_mode })

  -- The source passes the default cliff mode and no reference.
  unfoldable pub create_stream_with_curve : Env L → Address → StreamTerms → Call L ℕ
  create_stream_with_curve e sender t = do
    require_not_halted
    require_auth e sender
    create_stream_inner e sender (record t { cliff_mode = default_cliff_mode; reference = none })

  unfoldable pub create_stream_unchecked : Env L → Address → StreamTerms → Call L ℕ
  create_stream_unchecked e sender t = create_stream_inner e sender (record t { curve = linear })

  -- The second loop of `batch_create`.
  unfoldable pub create_all : Env L → Address → List BatchCreateRequest → Call L (List ℕ)
  unfolding create_stream_unchecked
  create_all e sender [] = pure []
  create_all e sender (r ∷ rs) = do
    stream_id ← create_stream_unchecked e sender (request_terms r)
    ids ← create_all e sender rs
    pure (stream_id ∷ ids)

  unfoldable pub batch_create : Env L → Address → List BatchCreateRequest → Call L (List ℕ)
  batch_create e sender requests = do
    require_not_halted
    reject_if (length requests == 0) empty_batch
    reject_if (ltb max_batch_size (length requests)) batch_too_large
    require_auth e sender
    lift (check_requests sender requests)
    create_all e sender requests

  -- The source passes the default cliff mode, no reference and the linear curve.
  unfoldable pub create_stream_via_factory : Env L → Address → Address → StreamTerms → Call L ℕ
  create_stream_via_factory e factory sender t = do
    require_not_halted
    require_auth e sender
    config ← unwrap (e.factory.get_factory_config factory)
    lift (check_policy config t)
    allowlisted ← unwrap (e.factory.is_allowlisted factory t.token)
    reject_if (not allowlisted) token_not_allowlisted
    create_stream_inner e sender
        (record t { cliff_mode = default_cliff_mode; reference = none; curve = linear })
