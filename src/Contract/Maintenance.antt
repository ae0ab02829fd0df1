-- ===== src/Contract/Maintenance.antt =====
-- Paying rent for streams: `extend_stream_ttl` and `batch_extend_ttl`.
use fluxora_contracts.Base.{ℕ, ◌+◌, Option, none, some, List, [], ◌∷◌}
use fluxora_contracts.Errors.{stream_terminated}
use fluxora_contracts.Types.{Stream, is_terminal}
use fluxora_contracts.Host.{Env, Call, pure, gets, reject_if, ◌>>=◌, ◌>>◌}
use fluxora_contracts.Storage.{
  find_stream, peek_stream, ttl_target_ledgers, extend_stream, extend_instance,
}
use fluxora_contracts.Publish.{ttl_extended}
use fluxora_contracts.Contract.Guards.{require_not_halted, validate_batch_ids, reject_duplicate_ids}

module _ {L : Type 0} where
  unfoldable pub extend_stream_ttl : Env L → ℕ → Call L ℕ
  extend_stream_ttl e stream_id = do
    require_not_halted
    s ← peek_stream stream_id
    reject_if (is_terminal s.status) stream_terminated
    extend_stream e stream_id s
    extend_instance e
    ttl_extended stream_id (ttl_target_ledgers e s)
    pure (ttl_target_ledgers e s)

  -- One member of a batch: an unknown id is skipped. The result is the count so far.
  unfoldable pub extend_member : Env L → ℕ → ℕ → Option Stream → Call L ℕ
  extend_member e stream_id extended none = pure extended
  extend_member e stream_id extended (some s) = do
    reject_if (is_terminal s.status) stream_terminated
    extend_stream e stream_id s
    ttl_extended stream_id (ttl_target_ledgers e s)
    pure (extended + 1)

  unfoldable pub extend_all : Env L → ℕ → List ℕ → Call L ℕ
  unfolding extend_member
  extend_all e extended [] = pure extended
  extend_all e extended (stream_id ∷ ids) = do
    found ← gets (λ w. find_stream w stream_id)
    extended' ← extend_member e stream_id extended found
    extend_all e extended' ids

  unfoldable pub batch_extend_ttl : Env L → List (Option ℕ) → Call L ℕ
  unfolding extend_all
  batch_extend_ttl e stream_ids = do
    require_not_halted
    ids ← validate_batch_ids stream_ids
    reject_duplicate_ids ids
    extended ← extend_all e 0 ids
    extend_instance e
    pure extended
