-- ===== src/Contract/Pool/Refinement.antt =====
-- The operations of the storage layer beside the steps of the book.
use fluxora_contracts.Base.{ℕ, ◌≡◌, refl, ap, sym, ◌∙◌, ℤ, some, checked_add, checked_sub}
use fluxora_contracts.Errors.{ok}
use fluxora_contracts.Types.{Address, Stream}
use fluxora_contracts.Host.{Env, World}
use fluxora_contracts.Storage.{
  load_stream, peek_stream, save_stream, next_stream_id, credit_pool, debit_pool,
}
use fluxora_contracts.Contract.Triple.{Triple}
use fluxora_contracts.Contract.Book.{
  Book, Over, view, load_stream-finds, peek_stream-finds, next_stream_id-next,
}
use fluxora_contracts.Contract.Pool.Posts.{
  post, enter, credit_pool-posts, debit_pool-posts, save_stream-enters,
}

-- An access to the storage, with what a reading one answers.
pub data Access : Type 0 where
  loading peeking saving : ℕ → Stream → Access
  numbering : ℕ → Access
  crediting debiting : Address → ℤ → Access

-- The access succeeds.
abbrev pub Ran : {L : Type 0} → Env L → Access → World L → World L → Type 0
Ran e (loading i s) w w' = load_stream e i w ≡ ok (s, w')
Ran e (peeking i s) w w' = peek_stream i w ≡ ok (s, w')
Ran e (saving i s) w w' = save_stream e i s w ≡ ok (tt, w')
Ran e (numbering i) w w' = next_stream_id e w ≡ ok (i, w')
Ran e (crediting t a) w w' = credit_pool e t a w ≡ ok (tt, w')
Ran e (debiting t a) w w' = debit_pool e t a w ≡ ok (tt, w')

-- What the access means for the book.
abbrev pub Does : Access → Book → Book → Type 0
Does (loading i s) b b' = (b.found i ≡ some s) × (b' ≡ b)
Does (peeking i s) b b' = (b.found i ≡ some s) × (b' ≡ b)
Does (saving i s) b b' = b' ≡ enter i s b
Does (numbering i) b b' = (b.next ≡ i) × (b' ≡ b)
Does (crediting t a) b b' = (k : ℤ) × (checked_add (b.pool t) a ≡ some k) × (b' ≡ post t k b)
Does (debiting t a) b b' = (k : ℤ) × (checked_sub (b.pool t) a ≡ some k) × (b' ≡ post t k b)

module _ {L : Type 0} (e : Env L) where
  -- What a call shows of the book that it starts from.
  from_view :
      {A : Type 0} (w : World L) {m : _} {Q : A → Book → Type 0}
      → Triple (Over (λ b. b ≡ view w)) m (λ a. Over (Q a))
      → (a : A) (w' : World L) → m w ≡ ok (a, w')
      → Q a (view w')
  from_view w h a w' eq = (h.holds w a w' (record { sees = refl }) eq).sees

  -- Seen from outside, the storage layer implements a book of streams, pool balances and the next
  -- id: a successful load, peek or read of the next id answers what the book has and leaves it, a
  -- successful save enters the stream and advances the next id exactly when the id was not in use,
  -- and a successful credit or debit posts the checked sum or difference to that one pool.
  pub storage-refines :
      (access : Access) (w w' : World L) → Ran e access w w' → Does access (view w) (view w')
  storage-refines (loading i s) w w' eq =
      let (same, found) = from_view w (load_stream-finds e i) s w' eq in
      (ap (λ b. b.found i) (sym same) ∙ found, same)
  storage-refines (peeking i s) w w' eq =
      let (same, found) = from_view w (peek_stream-finds i) s w' eq in
      (ap (λ b. b.found i) (sym same) ∙ found, same)
  storage-refines (saving i s) w w' eq =
      from_view w
        (save_stream-enters {Q = λ b. b ≡ enter i s (view w)} e i s (λ b p. ap (enter i s) p)) tt w'
        eq
  storage-refines (numbering i) w w' eq =
      let (same, next) = from_view w (next_stream_id-next e) i w' eq in
      (ap (λ b. b.next) (sym same) ∙ next, same)
  storage-refines (crediting t a) w w' eq =
      from_view w
        (credit_pool-posts
          {Q = λ b'.
            (k : ℤ) × (checked_add ((view w).pool t) a ≡ some k) × (b' ≡ post t k (view w))}
          e t a
          (λ b k p sum. (k, ap (λ b. checked_add (b.pool t) a) (sym p) ∙ sum, ap (post t k) p)))
        tt w' eq
  storage-refines (debiting t a) w w' eq =
      from_view w
        (debit_pool-posts
          {Q = λ b'.
            (k : ℤ) × (checked_sub ((view w).pool t) a ≡ some k) × (b' ≡ post t k (view w))}
          e t a
          (λ b k p rest. (k, ap (λ b. checked_sub (b.pool t) a) (sym p) ∙ rest, ap (post t k) p)))
        tt w' eq
