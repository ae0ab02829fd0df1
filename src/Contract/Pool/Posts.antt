-- ===== src/Contract/Pool/Posts.antt =====
-- What writing a pool's balance and writing a stream do to the book, and to its balance.
use fluxora_contracts.Base.{
  ℕ, suc, ◌+◌, ◌≤◌, ◌<◌, ◌≡◌, refl, subst, sym, ◌∙◌, ap, fun_ext, ℤ, pos, pos_part, Option, some,
  arith, inl, inr, if◌then◌else◌, ◌==◌, Bool, Bool-cases, Option-cases, true, false, not,
  checked_add, checked_sub, checked_add_u64, leb, leb→le,
}
use fluxora_contracts.Errors.{overflow}
use fluxora_contracts.Types.{Address, Stream, is_some}
use fluxora_contracts.Host.{Env, World, update, gets, ok_or, when, ◌>>=◌}
use fluxora_contracts.Storage.{
  find_stream, pooled_balance, write_entries, count_stream, save_stream, set_pooled_balance,
  credit_pool, debit_pool,
}
use fluxora_contracts.Storage.RoundTrip.{find_stream-write_entries}
use fluxora_contracts.Contract.Triple.{
  Triple, Triple-bind, Triple-gets, Triple-ok_or, Triple-unwrap, Keeps-modify, Keeps-skip,
}
use fluxora_contracts.Contract.Book.{Book, Over, view, extend_instance-Keeps, extend_stream-Keeps}
use fluxora_contracts.Contract.Pool.{
  held, total_held, Balanced, total_held-update, total_held-above, held-le-total,
}

unfoldable pub post : Address → ℤ → Book → Book
post t amount b = record b { pool = update b.pool t amount }

-- A stream whose id was not in use advances the next id.
unfoldable pub enter : ℕ → Stream → Book → Book
enter i s b = record b {
  found = update b.found i (some s);
  next = if is_some (b.found i) then b.next else suc b.next;
}

pub in_use :
    {t : Address} {u d : ℕ} (b : Book) (i : ℕ) {s : Stream}
    → Balanced t u d b
    → b.found i ≡ some s
    → i < b.next
in_use b i h f = elim (Bool-cases (leb b.next i)) [
  | inl e ↦ let free = h.unused i (leb→le b.next i e) in absurd (cc (free, f))
  | inr e ↦ ground arith
]

-- The stream under an id holds no more than the pool of its token has.
pub held-le-pool :
    {t : Address} {u : ℕ} (b : Book) (i : ℕ) {s : Stream}
    → Balanced t u 0 b
    → b.found i ≡ some s
    → held s ≤ pos_part (b.pool s.token)
held-le-pool {t} {u} b i {s} h f =
    let one = held-le-total b.found s.token i b.next (in_use b i h f) in
    let all = h.agrees s.token in ground (arith, one, all, f)

pub Balanced-post :
    {t : Address} {u d : ℕ} (u' d' k : ℕ) (b : Book)
    → k + d' + u ≡ pos_part (b.pool t) + d + u'
    → Balanced t u d b
    → Balanced t u' d' (post t (pos k) b)
unfolding post
Balanced-post {t} {u} {d} u' d' k b e h = record {
  recorded = λ token. let before = h.recorded token in ground (arith, before);
  agrees = λ token. elim (Bool-cases (t == token)) [
    | inl same ↦
        let eq : t ≡ token = ground arith in
        let before = h.agrees token in ground (arith, before, eq, e)
    | inr other ↦ let before = h.agrees token in ground (arith, before)
  ];
  unused = h.unused;
}

pub Balanced-enter :
    {u d : ℕ} (u' d' : ℕ) (b : Book) (i : ℕ) (s s' : Stream)
    → s'.token ≡ s.token
    → u + d' + held s ≡ d + held s' + u'
    → Balanced s.token u d b
    → b.found i ≡ some s
    → Balanced s.token u' d' (enter i s' b)
unfolding enter
Balanced-enter {u} {d} u' d' b i s s' t e h f =
    let below = in_use b i h f in
    let same_next : (if is_some (b.found i) then b.next else suc b.next) ≡ b.next =
      ground (arith, f) in
    record {
      recorded = h.recorded;
      agrees = λ token.
          let before = h.agrees token in
          let moved = total_held-update b.found token i b.next (some s') below in
          ground (arith, before, moved, same_next, f, t, e);
      unused = λ j le.
          let free = h.unused j (ground (arith, le, same_next)) in
          ground (arith, free, below, le, same_next);
    }

pub Balanced-enter_new :
    {t : Address} {u d : ℕ} (u' d' : ℕ) (b : Book) (s' : Stream)
    → s'.token ≡ t
    → u + d' ≡ d + held s' + u'
    → Balanced t u d b
    → Balanced t u' d' (enter b.next s' b)
unfolding enter total_held
Balanced-enter_new {t} {u} {d} u' d' b s' same e h =
    let free = h.unused b.next (omega arith) in
    let next : (if is_some (b.found b.next) then b.next else suc b.next) ≡ suc b.next =
      ground (arith, free) in
    record {
      recorded = h.recorded;
      agrees = λ token.
          let before = h.agrees token in
          let rest = total_held-above b.found token b.next b.next (some s') (omega arith) in
          rw next (ground (arith, before, rest, same, e));
      unused = λ j le.
          let before = h.unused j (ground (arith, le, next)) in ground (arith, before, le, next);
    }

posted :
    {L : Type 0} (w : World L) (t : Address) (k : ℤ)
    → view (record w { pooled = update w.pooled t (some k) }) ≡ post t k (view w)
unfolding view post find_stream pooled_balance
posted w t k =
    ap (λ f. record (view w) { pool = f })
      (fun_ext
        (λ token. elim (Bool-cases (t == token)) [ inl e ↦ ground arith | inr e ↦ ground arith ]))

put : ℕ → Stream → Book → Book
put i s b = record b { found = update b.found i (some s) }

written :
    {L : Type 0} (w : World L) (i : ℕ) (s : Stream) → view (write_entries i s w) ≡ put i s (view w)
unfolding view put write_entries pooled_balance
written w i s =
    ap (λ f. record (view w) { found = f }) (fun_ext (λ j. find_stream-write_entries w i j s))

found-entry : {L : Type 0} (w : World L) (i : ℕ) → is_some (find_stream w i) ≡ is_some (w.streams i)
unfolding find_stream
found-entry w i = elim (Option-cases (w.streams i)) [
  | inl e ↦ ground (arith, e)
  | inr (r, e) ↦ ground (arith, e)
]

advance : Bool → Book → Book
advance new b = if new then record b { next = suc b.next } else b

entered :
    (i : ℕ) (s : Stream) (b : Book) → enter i s b ≡ advance (not (is_some (b.found i))) (put i s b)
unfolding enter advance put
entered i s b = elim (Option-cases (b.found i)) [
  | inl e ↦ ground (arith, e)
  | inr (r, e) ↦ ground (arith, e)
]

module _ {L : Type 0} {P Q : Book → Type 0} (e : Env L) where
  set_pooled_balance-posts :
      (t : Address) (k : ℤ)
      → ((b : Book) → P b → Q (post t k b))
      → Triple (Over P) (set_pooled_balance e t k) (λ _. Over Q)
  unfolding set_pooled_balance
  set_pooled_balance-posts t k h =
      Triple-bind {Q = λ _. Over Q}
        (Keeps-modify _ (λ w p. record { sees = subst Q (sym (posted w t k)) (h (view w) p.sees) }))
        (λ _. extend_instance-Keeps e)

module _ {L : Type 0} {P Q : Book → Type 0} (e : Env L) where
  -- The checked result of an operation on the pool's balance is posted.
  posts :
      (t : Address) (op : ℤ → Option ℤ)
      → ((b : Book) (k : ℤ) → P b → op (b.pool t) ≡ some k → Q (post t k b))
      → Triple
          (Over P)
          (do
            current ← gets (λ w. pooled_balance w t)
            next ← ok_or (op current) overflow
            set_pooled_balance e t next)
          (λ _. Over Q)
  unfolding view
  posts t op h =
      Triple-bind {Q = λ n. Over (λ b. P b × (b.pool t ≡ n))}
        (Triple-gets _ (λ w p. record { sees = (p.sees, refl) }))
        (λ n.
          Triple-bind {Q = λ k. Over (λ b. P b × (op (b.pool t) ≡ some k))}
            (Triple-ok_or (op n) overflow
              (λ k w eq p. record { sees = (p.sees.0, ap op p.sees.1 ∙ eq) }))
            (λ k. set_pooled_balance-posts e t k (λ b p. h b k p.0 p.1)))

advanced : (n k : ℕ) → checked_add_u64 n 1 ≡ some k → suc n ≡ k
unfolding checked_add_u64
advanced n k eq = ground arith

module _ {L : Type 0} {Q : Book → Type 0} (e : Env L) where
  count_stream-advances :
      Triple (Over (λ b. Q (record b { next = suc b.next }))) (count_stream e) (λ _. Over Q)
  unfolding count_stream view find_stream pooled_balance
  count_stream-advances =
      Triple-bind {Q = λ n. Over (λ b. Q (record b { next = suc n }))}
        (Triple-gets _ (λ w p. record { sees = p.sees }))
        (λ n.
          Triple-bind {Q = λ k. Over (λ b. Q (record b { next = k }))}
            (Triple-unwrap _ (λ k w eq p.
              let next : suc n ≡ k = advanced n k eq in
              subst (λ m. Over (λ b. Q (record b { next = m })) w) next p))
            (λ k.
              Triple-bind {Q = λ _. Over Q} (Keeps-modify _ (λ w p. record { sees = p.sees }))
                (λ _. extend_instance-Keeps e)))

  advances :
      (new : Bool)
      → Triple (Over (λ b. Q (advance new b))) (when new (count_stream e)) (λ _. Over Q)
  unfolding advance when
  advances true = count_stream-advances
  advances false = Keeps-skip (count_stream e)

module _ {L : Type 0} {P Q : Book → Type 0} (e : Env L) where
  pub credit_pool-posts :
      (t : Address) (a : ℤ)
      → ((b : Book) (k : ℤ) → P b → checked_add (b.pool t) a ≡ some k → Q (post t k b))
      → Triple (Over P) (credit_pool e t a) (λ _. Over Q)
  unfolding credit_pool
  credit_pool-posts t a h = posts e t (λ n. checked_add n a) h

  pub debit_pool-posts :
      (t : Address) (a : ℤ)
      → ((b : Book) (k : ℤ) → P b → checked_sub (b.pool t) a ≡ some k → Q (post t k b))
      → Triple (Over P) (debit_pool e t a) (λ _. Over Q)
  unfolding debit_pool
  debit_pool-posts t a h = posts e t (λ n. checked_sub n a) h

  pub save_stream-enters :
      (i : ℕ) (s : Stream)
      → ((b : Book) → P b → Q (enter i s b))
      → Triple (Over P) (save_stream e i s) (λ _. Over Q)
  unfolding save_stream view
  save_stream-enters i s h =
      Triple-bind {Q = λ new. Over (λ b. P b × (not (is_some (b.found i)) ≡ new))}
        (Triple-gets _ (λ w p. record { sees = (p.sees, ap not (found-entry w i)) }))
        (λ new.
          Triple-bind {Q = λ _. Over (λ b. Q (advance new b))}
            (Keeps-modify _ (λ w p. record {
              sees =
                  subst (λ b. Q (advance new b)) (sym (written w i s))
                    (subst (λ m. Q (advance m (put i s (view w)))) p.sees.1
                      (subst Q (entered i s (view w)) (h (view w) p.sees.0)));
            }))
            (λ _. Triple-bind (advances e new) (λ _. extend_stream-Keeps e i s)))
