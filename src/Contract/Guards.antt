-- ===== src/Contract/Guards.antt =====
-- The checks that the entry points share: the halt, the delegate's grant, the ids of a batch.
use Prim.Native.Nat.{bit_and}
use fluxora_contracts.Base.{ℕ, suc, ltb, ◌==◌, Bool, false, ◌||◌, Option, none, some, List, [], ◌∷◌}
use fluxora_contracts.Errors.{
  contract_halted, delegate_not_permitted, delegate_expired, malformed_stream_id, empty_batch,
  batch_too_large, duplicate_stream_id,
}
use fluxora_contracts.Types.{Address, DelegateGrant}
use fluxora_contracts.Host.{
  ◌>>=◌, ◌>>◌, Env, Call, pure, gets, ok_or, fail, reject_if, require_auth,
}
use fluxora_contracts.Storage.{is_halted, load_delegate}

abbrev pub max_batch_size : ℕ
max_batch_size = 16

abbrev pub length {ℓ} : {A : Type ℓ} → List A → ℕ
length [] = 0
length (x ∷ xs) = suc (length xs)

abbrev pub contains : ℕ → List ℕ → Bool
contains x [] = false
contains x (y ∷ ys) = x == y || contains x ys

abbrev pub expired : Option ℕ → ℕ → Bool
expired none now = false
expired (some expires) now = ltb expires now

module _ {L : Type 0} where
  unfoldable pub require_not_halted : Call L Unit
  unfolding is_halted
  require_not_halted = do halted ← gets is_halted; reject_if halted contract_halted

  unfoldable pub check_grant : Env L → Option DelegateGrant → Address → ℕ → Call L Unit
  unfolding require_auth
  check_grant e none caller op = fail delegate_not_permitted
  check_grant e (some grant) caller op = do
    reject_if (expired grant.expires_at e.now) delegate_expired
    reject_if (bit_and grant.ops op == 0) delegate_not_permitted
    require_auth e caller

  unfoldable pub check_delegate : Env L → ℕ → Address → ℕ → Call L Unit
  unfolding load_delegate check_grant
  check_delegate e stream_id caller op = do
    grant ← gets (λ w. load_delegate w stream_id caller)
    check_grant e grant caller op

  -- `u64::try_from_val` of each element; `none` stands for a value that is no `u64`.
  unfoldable pub convert_ids : List (Option ℕ) → Call L (List ℕ)
  convert_ids [] = pure []
  convert_ids (raw ∷ raws) = do
    stream_id ← ok_or raw malformed_stream_id
    validated ← convert_ids raws
    pure (stream_id ∷ validated)

  unfoldable pub validate_batch_ids : List (Option ℕ) → Call L (List ℕ)
  unfolding convert_ids
  validate_batch_ids stream_ids = do
    reject_if (length stream_ids == 0) empty_batch
    reject_if (ltb max_batch_size (length stream_ids)) batch_too_large
    convert_ids stream_ids

  unfoldable pub reject_duplicate_ids : List ℕ → Call L Unit
  reject_duplicate_ids [] = pure tt
  reject_duplicate_ids (x ∷ xs) = do
    reject_if (contains x xs) duplicate_stream_id
    reject_duplicate_ids xs
