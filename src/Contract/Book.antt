-- ===== src/Contract/Book.antt =====
-- The book of the contract: the streams that are found, the recorded balance of each token's pool and
-- the next id, with triples for the parts of a call that write none of the three.
pub mod Notices
use fluxora_contracts.Base.{
  ℕ, ℤ, ◌≡◌, refl, subst, ◌∙◌, Option, none, some, arith, ap, if◌then◌else◌, ◌==◌, u64_max, [], ◌∷◌,
  ◌++◌,
}
use fluxora_contracts.Errors.{Error, stream_not_found, stream_id_exhausted}
use fluxora_contracts.Types.{Address, Stream, DelegateGrant}
use fluxora_contracts.Events.{Event}
use fluxora_contracts.Host.{
  Env, World, Call, Rent, TransferReply, ok_ok, ok_err, err_ok, err_contract, err_abort, rent,
  publish, require_auth, gets, ok_or, unwrap, modify, fail, pure, ◌>>=◌, ◌>>◌,
}
use fluxora_contracts.Storage.{
  find_stream, pooled_balance, get_or, extend_instance, extend_stream, read_stream, load_stream,
  peek_stream, next_stream_id,
}
use fluxora_contracts.Contract.Guards.{require_not_halted, check_delegate, check_grant}
use fluxora_contracts.Contract.Payments.{
  token_transfer, transfer_result, balance_of, verify_pool_balance,
}
use fluxora_contracts.Contract.Triple.{
  Triple, Keeps, Triple-bind, Triple-pure, Triple-gets, Keeps-when, Keeps-reject_if, Keeps-modify,
  Triple-if,
}

pub record Book : Type 0 where
  pub found : ℕ → Option Stream
  pub pool : Address → ℤ
  pub next : ℕ

unfoldable pub view : {L : Type 0} → World L → Book
view w = record { found = find_stream w; pool = pooled_balance w; next = get_or 0 w.next_stream_id }

-- The worlds with a book that has `Q`.
pub record Over {L : Type 0} (Q : Book → Type 0) (w : World L) : Type 0 where
  pub sees : Q (view w)

module _ {L : Type 0} where
  pub ok_or-Keeps :
      {A : Type 0} {P : World L → Type 0} (o : Option A) (x : Error) → Keeps P (ok_or o x)
  unfolding ok_or
  ok_or-Keeps {P = P} o x = record { holds = λ w b w' p e. ground arith }

  pub Triple-fail :
      {A : Type 0} {P : World L → Type 0} {Q : A → World L → Type 0} (x : Error)
      → Triple P (fail x) Q
  unfolding fail
  Triple-fail x = record { holds = λ w b w' p h. cc h }

  pub unwrap-Keeps : {A : Type 0} {P : World L → Type 0} (o : Option A) → Keeps P (unwrap o)
  unfolding unwrap
  unwrap-Keeps {P = P} o = record { holds = λ w b w' p e. ground arith }

  pub gets-Keeps : {A : Type 0} {P : World L → Type 0} (f : World L → A) → Keeps P (gets f)
  gets-Keeps f = Triple-gets f (λ w p. p)

  pub require_auth-Keeps :
      {P : World L → Type 0} (e : Env L) (a : Address) → Keeps P (require_auth e a)
  unfolding require_auth
  require_auth-Keeps {P = P} e a = record { holds = λ w b w' p h. ground arith }

  pub require_not_halted-Keeps : {P : World L → Type 0} → Keeps P require_not_halted
  unfolding require_not_halted
  require_not_halted-Keeps = Triple-bind (gets-Keeps _) (λ h. Keeps-reject_if h _)

  pub peek_stream-Keeps : {P : World L → Type 0} (i : ℕ) → Keeps P (peek_stream i)
  unfolding peek_stream read_stream
  peek_stream-Keeps i = Triple-bind (gets-Keeps _) (λ o. ok_or-Keeps o _)

  -- A fact about values holds on whatever a call does.
  pub with_fact :
      {A : Type 0} {F : Type 0} {P : World L → Type 0} {m : Call L A}
      → Keeps P m
      → Triple (λ w. P w × F) m (λ _ w. P w × F)
  with_fact h = record { holds = λ w a w' p e. (h.holds w a w' p.0 e, p.1) }

-- A fact about values stays beside what a call establishes.
pub under_fact :
    {L A F : Type 0} {P : World L → Type 0} {Q : A → World L → Type 0} {m : Call L A}
    → Triple P m Q
    → Triple (λ w. P w × F) m (λ a w. Q a w × F)
under_fact h = record { holds = λ w a w' p eq. (h.holds w a w' p.0 eq, p.1) }

-- A fact about values may be forgotten.
pub forget_fact :
    {L A F : Type 0} {P : World L → Type 0} {Q : A → World L → Type 0} {m : Call L A}
    → Triple P m Q
    → Triple (λ w. P w × F) m Q
forget_fact h = record { holds = λ w a w' p eq. h.holds w a w' p.0 eq }

-- A fact about values may be used to show what a call does.
pub given :
    {L A F : Type 0} {P : World L → Type 0} {Q : A → World L → Type 0} {m : Call L A}
    → (F → Triple P m Q)
    → Triple (λ w. P w × F) m Q
given h = record { holds = λ w a w' p eq. (h p.1).holds w a w' p.0 eq }

module _ {L : Type 0} {Q : Book → Type 0} where
  pub same_view : (w w' : World L) → view w ≡ view w' → Over Q w → Over Q w'
  same_view w w' h p = record { sees = subst Q h p.sees }

  pub unchanged :
      (f : World L → World L) → ((w : World L) → view w ≡ view (f w)) → Keeps (Over Q) (modify f)
  unchanged f h = Keeps-modify f (λ w p. same_view w (f w) (h w) p)

  pub rent-Keeps : (r : Rent) → Keeps {L = L} (Over Q) (rent r)
  unfolding rent view find_stream pooled_balance
  rent-Keeps r = record {
    holds = λ w b w' p h.
        let same : record w { rents = w.rents ++ r ∷ [] } ≡ w' = cc in
        same_view w w' (ap view same) p;
  }

  pub publish-Keeps : (v : Event) → Keeps {L = L} (Over Q) (publish v)
  unfolding publish view find_stream pooled_balance
  publish-Keeps v = record {
    holds = λ w b w' p h.
        let same : record w { events = w.events ++ v ∷ [] } ≡ w' = cc in
        same_view w w' (ap view same) p;
  }

  transfer_result-Keeps : (o : TransferReply L) → Keeps {L = L} (Over Q) (transfer_result o)
  unfolding view find_stream pooled_balance
  transfer_result-Keeps (ok_ok ledger) = record {
    holds = λ w b w' p h.
        let same : record w { ledger = ledger } ≡ w' = cc in same_view w w' (ap view same) p;
  }
  transfer_result-Keeps ok_err = record { holds = λ w b w' p h. cc h }
  transfer_result-Keeps err_ok = record { holds = λ w b w' p h. cc h }
  transfer_result-Keeps err_contract = record { holds = λ w b w' p h. cc h }
  transfer_result-Keeps err_abort = record { holds = λ w b w' p h. cc h }

  pub token_transfer-Keeps :
      (e : Env L) (token from to : Address) (amount : ℤ)
      → Keeps (Over Q) (token_transfer e token from to amount)
  unfolding token_transfer
  token_transfer-Keeps e token from to amount = record {
    holds = λ w b w' p h.
        (transfer_result-Keeps (e.token.try_transfer w.ledger token from to amount)).holds w b w' p
          h;
  }

  pub extend_instance-Keeps : (e : Env L) → Keeps (Over Q) (extend_instance e)
  unfolding extend_instance
  extend_instance-Keeps e = rent-Keeps _

  pub extend_stream-Keeps : (e : Env L) (i : ℕ) (s : Stream) → Keeps (Over Q) (extend_stream e i s)
  unfolding extend_stream
  extend_stream-Keeps e i s =
      Triple-bind (rent-Keeps _)
        (λ _. Triple-bind (Keeps-when _ (rent-Keeps _)) (λ _. Keeps-when _ (rent-Keeps _)))

  at_found :
      (i : ℕ) (o : Option Stream)
      → Triple {L = L}
          (λ w. Over Q w × (find_stream w i ≡ o))
          (ok_or o stream_not_found)
          (λ s. Over (λ b. Q b × (b.found i ≡ some s)))
  unfolding ok_or view
  at_found i none = record { holds = λ w b w' p e. cc e }
  at_found i (some r) = record {
    holds = λ w b w' p e.
        let same : r ≡ b = cc in
        let same' : w ≡ w' = cc in
        subst (Over (λ b'. Q b' × (b'.found i ≡ some b))) same'
          (record { sees = (p.0.sees, p.1 ∙ ap some same) });
  }

  read_stream-finds :
      (i : ℕ)
      → Triple {L = L} (Over Q) (read_stream i) (λ s. Over (λ b. Q b × (b.found i ≡ some s)))
  unfolding read_stream
  read_stream-finds i =
      Triple-bind {Q = λ o w. Over Q w × (find_stream w i ≡ o)}
        (Triple-gets (λ w. find_stream w i) (λ w p. (p, refl))) (at_found i)

  pub peek_stream-finds :
      (i : ℕ)
      → Triple {L = L} (Over Q) (peek_stream i) (λ s. Over (λ b. Q b × (b.found i ≡ some s)))
  unfolding peek_stream
  peek_stream-finds i = read_stream-finds i

  check_grant-Keeps :
      (e : Env L) (g : Option DelegateGrant) (caller : Address) (op : ℕ)
      → Keeps (Over Q) (check_grant e g caller op)
  unfolding check_grant
  check_grant-Keeps e none caller op = Triple-fail _
  check_grant-Keeps e (some g) caller op =
      Triple-bind (Keeps-reject_if _ _)
        (λ _. Triple-bind (Keeps-reject_if _ _) (λ _. require_auth-Keeps e caller))

  pub check_delegate-Keeps :
      (e : Env L) (i : ℕ) (caller : Address) (op : ℕ)
      → Keeps (Over Q) (check_delegate e i caller op)
  unfolding check_delegate
  check_delegate-Keeps e i caller op =
      Triple-bind (gets-Keeps _) (λ g. check_grant-Keeps e g caller op)

  pub balance_of-Keeps :
      (e : Env L) (token owner : Address) → Keeps (Over Q) (balance_of e token owner)
  unfolding balance_of
  balance_of-Keeps e token owner = Triple-bind (gets-Keeps _) (λ o. unwrap-Keeps o)

  pub verify_pool_balance-Keeps :
      (e : Env L) (token : Address) → Keeps (Over Q) (verify_pool_balance e token)
  unfolding verify_pool_balance
  verify_pool_balance-Keeps e token =
      Triple-bind (gets-Keeps _)
        (λ n. Triple-bind (balance_of-Keeps e token _) (λ k. Keeps-reject_if _ _))

pub load_stream-finds :
    {L : Type 0} {Q : Book → Type 0} (e : Env L) (i : ℕ)
    → Triple (Over Q) (load_stream e i) (λ s. Over (λ b. Q b × (b.found i ≡ some s)))
unfolding load_stream
load_stream-finds e i =
    Triple-bind (read_stream-finds i)
      (λ s. Triple-bind (extend_stream-Keeps e i s) (λ _. Triple-pure s (λ w p. p)))

pub load_stream-Keeps :
    {L : Type 0} {Q : Book → Type 0} (e : Env L) (i : ℕ) → Keeps (Over Q) (load_stream e i)
unfolding load_stream peek_stream
load_stream-Keeps e i =
    Triple-bind (peek_stream-Keeps i)
      (λ s. Triple-bind (extend_stream-Keeps e i s) (λ _. Triple-pure s (λ w p. p)))

-- The id that is answered is the next one.
pub next_stream_id-next :
    {L : Type 0} {Q : Book → Type 0} (e : Env L)
    → Triple (Over Q) (next_stream_id e) (λ i. Over (λ b. Q b × (b.next ≡ i)))
unfolding next_stream_id view
next_stream_id-next {L} {Q} e =
    Triple-bind {Q = λ n. Over (λ b. Q b × (b.next ≡ n))}
      (Triple-gets _ (λ w p. record { sees = (p.sees, refl) })) not_last
  where
    not_last :
        (n : ℕ)
        → Triple
            (Over (λ b. Q b × (b.next ≡ n)))
            (if n == u64_max then fail stream_id_exhausted else (do extend_instance e; pure n))
            (λ i. Over (λ b. Q b × (b.next ≡ i)))
    not_last n =
        Triple-if _ (Triple-fail _)
          (Triple-bind (extend_instance-Keeps e) (λ _. Triple-pure n (λ w p. p)))
