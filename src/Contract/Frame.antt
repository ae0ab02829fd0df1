-- ===== src/Contract/Frame.antt =====
-- The stored streams under the parts of the entry points that do not write them.
use fluxora_contracts.Base.{ℕ, ℤ, ◌≡◌, refl, subst, sym, ◌∙◌, some, inl, inr, ◌==◌, Bool-cases}
use fluxora_contracts.Types.{Address, Stream}
use fluxora_contracts.Host.{Env, World, Call, modify}
use fluxora_contracts.Storage.{
  find_stream, write_entries, count_stream, save_stream, next_stream_id, set_pooled_balance,
  credit_pool, debit_pool, peek_stream, load_stream,
}
use fluxora_contracts.Storage.RoundTrip.{find_stream-write_entries}
use fluxora_contracts.Contract.Payments.{pull_deposit}
use fluxora_contracts.Contract.Book.{
  Book, view, Over, gets-Keeps, ok_or-Keeps, unwrap-Keeps, under_fact, forget_fact,
  extend_instance-Keeps, extend_stream-Keeps, token_transfer-Keeps, balance_of-Keeps,
  next_stream_id-next,
}
use fluxora_contracts.Contract.Book
use fluxora_contracts.Contract.Triple.{
  Triple, Keeps, Triple-bind, Triple-weaken, Keeps-when, Keeps-reject_if, Keeps-modify,
}

-- Every stream of a book has `W`.
pub record AllIn (W : Stream → Type 0) (b : Book) : Type 0 where
  pub every : (i : ℕ) (s : Stream) → b.found i ≡ some s → W s

-- A property of the stored streams: the worlds in which every stream that is found has `W`.
abbrev pub AllStreams : {L : Type 0} → (Stream → Type 0) → World L → Type 0
AllStreams W = Over (AllIn W)

-- A call after which every stream that is found has `W` again, if it did before.
abbrev pub KeepsAll : {L A : Type 0} → (Stream → Type 0) → Call L A → Type 0
KeepsAll {L} W m = Keeps {L = L} (AllStreams {L = L} W) m

-- What all streams of a world have, and how to show it.
pub every_stream :
    {L : Type 0} {W : Stream → Type 0} (w : World L)
    → AllStreams W w
    → (i : ℕ) (s : Stream) → find_stream w i ≡ some s
    → W s
unfolding view
every_stream w p i s f = p.sees.every i s f

pub all_streams :
    {L : Type 0} {W : Stream → Type 0} (w : World L)
    → ((i : ℕ) (s : Stream) → find_stream w i ≡ some s → W s)
    → AllStreams W w
unfolding view
all_streams w h = record { sees = record { every = h } }

written :
    {L : Type 0} {W : Stream → Type 0} (w : World L) (i : ℕ) (s : Stream)
    → W s
    → AllStreams W w
    → AllStreams W (write_entries i s w)
written {W = W} w i s h p = all_streams _ (λ j r f.
    let found = sym (find_stream-write_entries w i j s) ∙ f in
    elim (Bool-cases (i == j)) [
      | inl e ↦ let same : s ≡ r = cc in subst W same h
      | inr e ↦ every_stream w p j r (cc)
    ])

module _ {L : Type 0} {W : Stream → Type 0} where
  -- A stream that is found has what all of them have.
  known :
      {i : ℕ} (s : Stream) (w : World L)
      → Over (λ b. AllIn W b × (b.found i ≡ some s)) w
      → AllStreams W w × W s
  known {i} s w p = (record { sees = p.sees.0 }, p.sees.0.every i s p.sees.1)

  pub peek_stream-finds :
      (i : ℕ) → Triple {L = L} (AllStreams W) (peek_stream i) (λ s w. AllStreams W w × W s)
  peek_stream-finds i = Triple-weaken (λ w p. p) known (Book.peek_stream-finds i)

  pub load_stream-finds :
      (e : Env L) (i : ℕ) → Triple (AllStreams W) (load_stream e i) (λ s w. AllStreams W w × W s)
  load_stream-finds e i = Triple-weaken (λ w p. p) known (Book.load_stream-finds e i)

  unchanged :
      (f : World L → World L)
      → ((w : World L) (i : ℕ) → find_stream (f w) i ≡ find_stream w i)
      → KeepsAll {L = L} W (modify f)
  unchanged f h =
      Keeps-modify f
        (λ w p. all_streams _ (λ i s found. every_stream w p i s (sym (h w i) ∙ found)))

  count_stream-keeps : (e : Env L) → KeepsAll W (count_stream e)
  unfolding count_stream find_stream
  count_stream-keeps e = Triple-bind (gets-Keeps _) (λ n.
      Triple-bind (unwrap-Keeps _)
        (λ k. Triple-bind (unchanged _ (λ w i. refl)) (λ _. extend_instance-Keeps e)))

  pub save_stream-keeps :
      (e : Env L) (i : ℕ) (s : Stream)
      → Triple (λ w. AllStreams W w × W s) (save_stream e i s) (λ _. AllStreams W)
  unfolding save_stream
  save_stream-keeps e i s = Triple-bind (gets-Keeps _) (λ new.
      Triple-bind (Keeps-modify _ (λ w p. written w i s p.1 p.0))
        (λ _. Triple-bind (Keeps-when _ (count_stream-keeps e)) (λ _. extend_stream-Keeps e i s)))

  pub next_stream_id-keeps : (e : Env L) → KeepsAll W (next_stream_id e)
  next_stream_id-keeps e =
      Triple-weaken (λ w p. p) (λ i w p. record { sees = p.sees.0 }) (next_stream_id-next e)

  set_pooled_balance-keeps :
      (e : Env L) (token : Address) (amount : ℤ) → KeepsAll W (set_pooled_balance e token amount)
  unfolding set_pooled_balance find_stream
  set_pooled_balance-keeps e token amount =
      Triple-bind (unchanged _ (λ w i. refl)) (λ _. extend_instance-Keeps e)

  pub credit_pool-keeps :
      (e : Env L) (token : Address) (amount : ℤ) → KeepsAll W (credit_pool e token amount)
  unfolding credit_pool
  credit_pool-keeps e token amount =
      Triple-bind (gets-Keeps _)
        (λ n. Triple-bind (ok_or-Keeps _ _) (λ k. set_pooled_balance-keeps e token k))

  pub debit_pool-keeps :
      (e : Env L) (token : Address) (amount : ℤ) → KeepsAll W (debit_pool e token amount)
  unfolding debit_pool
  debit_pool-keeps e token amount =
      Triple-bind (gets-Keeps _)
        (λ n. Triple-bind (ok_or-Keeps _ _) (λ k. set_pooled_balance-keeps e token k))

  pub pull_deposit-keeps :
      (e : Env L) (token from : Address) (amount : ℤ)
      → KeepsAll W (pull_deposit e token from amount)
  unfolding pull_deposit
  pull_deposit-keeps e token from amount = Triple-bind (balance_of-Keeps e token _) (λ b.
      Triple-bind (token_transfer-Keeps e token from _ amount) (λ _.
        Triple-bind (balance_of-Keeps e token _) (λ a.
          Triple-bind (ok_or-Keeps _ _)
            (λ r. Triple-bind (Keeps-reject_if _ _) (λ _. credit_pool-keeps e token amount)))))
