-- ===== src/Contract/Pool/Batches.antt =====
-- What the batched entry points share on the pools: distinct ids, and members found under their ids.

pub mod Payouts
pub mod Settlements
use fluxora_contracts.Base.{
  ℕ, ◌≡◌, ℤ, ◌==◌, false, some, List, ◌∷◌, [], arith, inl, inr, Bool-cases,
}
use fluxora_contracts.Types.{Address, Stream}
use fluxora_contracts.Host.{World}
use fluxora_contracts.Contract.Triple.{
  Triple, Triple-bind, Triple-weaken, Triple-pure, Triple-reject_if,
}
use fluxora_contracts.Contract.Book.{Book, Over, under_fact}
use fluxora_contracts.Contract.Guards.{contains, reject_duplicate_ids}
use fluxora_contracts.Contract.Pool.Posts.{post, enter}
use fluxora_contracts.Contract.Pool.Settles.{Agreed, Held, Spares, retarget}

-- No id occurs twice.
abbrev pub Distinct : List ℕ → Type 0
Distinct [] = Unit
Distinct (i ∷ is) = (contains i is ≡ false) × Distinct is

module _ {L : Type 0} {P : World L → Type 0} where
  pub reject_duplicate_ids-Distinct :
      (is : List ℕ) → Triple P (reject_duplicate_ids is) (λ _ w. P w × Distinct is)
  unfolding reject_duplicate_ids
  reject_duplicate_ids-Distinct [] = Triple-pure tt (λ w p. (p, tt))
  reject_duplicate_ids-Distinct (i ∷ is) =
      Triple-bind
        (Triple-reject_if {Q = λ _ w. P w × (contains i is ≡ false)} _ _ (λ w eq p. (p, eq)))
        (λ _.
          Triple-weaken (λ w p. p) (λ a w p. (p.0.0, (p.1, p.0.1)))
            (under_fact (reject_duplicate_ids-Distinct is)))

-- The streams of a batch, each found under its id.
abbrev pub AllFound : List (ℕ × Stream) → Book → Type 0
AllFound [] b = Unit
AllFound ((i, s) ∷ ms) b = (b.found i ≡ some s) × AllFound ms b

abbrev pub ids : List (ℕ × Stream) → List ℕ
ids [] = []
ids (m ∷ ms) = m.0 ∷ ids ms

still_found :
    (i : ℕ) (s : Stream) (ms : List (ℕ × Stream)) (b : Book)
    → contains i (ids ms) ≡ false
    → AllFound ms b
    → AllFound ms (enter i s b)
unfolding enter
still_found i s [] b h p = tt
still_found i s ((j, r) ∷ ms) b h p = elim (Bool-cases (i == j)) [
  | inl e ↦ absurd (ground arith)
  | inr e ↦ (ground (arith, p.0), still_found i s ms b (ground arith) p.1)
]

still_posted :
    (t : Address) (k : ℤ) (ms : List (ℕ × Stream)) (b : Book)
    → AllFound ms b
    → AllFound ms (post t k b)
unfolding post
still_posted t k [] b p = tt
still_posted t k (m ∷ ms) b p = (p.0, still_posted t k ms b p.1)

pub AllFound-Spares :
    (i : ℕ) (ms : List (ℕ × Stream)) → contains i (ids ms) ≡ false → Spares i (AllFound ms)
AllFound-Spares i ms h = record {
  on_post = λ t k b p. still_posted t k ms b p;
  on_enter = λ s b p. still_found i s ms b h p;
}

-- The first member of a batch, ready for its turn.
pub first-Held :
    {L : Type 0} (i : ℕ) (s : Stream) (ms : List (ℕ × Stream)) (w : World L)
    → Over (Agreed (AllFound ((i, s) ∷ ms))) w
    → Over (Held i s 0 0 (AllFound ms)) w
first-Held i s ms w p = record { sees = (retarget s.token _ p.sees.0, p.sees.1) }
