-- ===== src/Contract/Triple.antt =====
-- Triples over the calls of the contract: what holds of the answer and of the world where a call
-- succeeds.
use fluxora_contracts.Base.{◌≡◌, refl, subst, Option, some, Bool, true, false, if◌then◌else◌}
use fluxora_contracts.Errors.{Error, Result, ok, err, trap}
use fluxora_contracts.Contract.Inversion.{>>=-ok, ok_or-ok, unwrap-ok}
use fluxora_contracts.Host.{
  World, Call, pure, lift, gets, ok_or, unwrap, modify, when, reject_if, ◌>>=◌,
}

pub record Triple {L A : Type 0} (P : World L → Type 0) (m : Call L A) (Q : A → World L → Type 0)
    : Type 0 where
  pub holds : (w : World L) (a : A) (w' : World L) → P w → m w ≡ ok (a, w') → Q a w'

module _ {L : Type 0} where
  -- A call that keeps `P`, whatever it answers.
  abbrev pub Keeps : {A : Type 0} → (World L → Type 0) → Call L A → Type 0
  Keeps P m = Triple P m (λ _. P)

  at_result :
      {A : Type 0} (Q : A → World L → Type 0) (a b : A) (w w' : World L)
      → ◌≡◌ {A = Result (A × World L)} (ok (a, w)) (ok (b, w'))
      → Q a w
      → Q b w'
  at_result {A} Q a b w w' e q =
      let fst : a ≡ b = cc in
      let snd : w ≡ w' = cc in subst (λ (x : A). Q x w') fst (subst (Q a) snd q)

  module _ {A : Type 0} {P : World L → Type 0} where
    pub Triple-bind :
        {B : Type 0} {Q : A → World L → Type 0} {R : B → World L → Type 0} {m : Call L A}
        {f : A → Call L B}
        → Triple P m Q
        → ((a : A) → Triple (Q a) (f a) R)
        → Triple P (m >>= f) R
    unfolding ◌>>=◌
    Triple-bind {m = m} {f = f} h k = record {
      holds = λ w b w'' p e.
          let (a, w', first, second) = (>>=-ok m f w e) in
          (k a).holds w' b w'' (h.holds w a w' p first) second;
    }

    pub Triple-weaken :
        {P' : World L → Type 0} {Q Q' : A → World L → Type 0} {m : Call L A}
        → ((w : World L) → P' w → P w)
        → ((a : A) (w : World L) → Q a w → Q' a w)
        → Triple P m Q
        → Triple P' m Q'
    Triple-weaken before after h = record {
      holds = λ w a w' p e. after a w' (h.holds w a w' (before w p) e);
    }

    pub Triple-pure :
        {Q : A → World L → Type 0} (a : A) → ((w : World L) → P w → Q a w) → Triple P (pure a) Q
    unfolding pure
    Triple-pure {Q = Q} a h = record { holds = λ w b w' p e. at_result Q a b w w' e (h w p) }

    pub Triple-gets :
        {Q : A → World L → Type 0} (f : World L → A)
        → ((w : World L) → P w → Q (f w) w)
        → Triple P (gets f) Q
    unfolding gets
    Triple-gets {Q = Q} f h = record { holds = λ w b w' p e. at_result Q (f w) b w w' e (h w p) }

    pub Triple-lift :
        {Q : A → World L → Type 0} (r : Result A)
        → ((a : A) (w : World L) → r ≡ ok a → P w → Q a w)
        → Triple P (lift r) Q
    unfolding lift
    Triple-lift {Q = Q} (ok a) h = record {
      holds = λ w b w' p e. at_result Q a b w w' e (h a w refl p);
    }
    Triple-lift (err x) h = record { holds = λ w b w' p e. cc e }
    Triple-lift trap h = record { holds = λ w b w' p e. cc e }

    pub Triple-ok_or :
        {Q : A → World L → Type 0} (o : Option A) (x : Error)
        → ((a : A) (w : World L) → o ≡ some a → P w → Q a w)
        → Triple P (ok_or o x) Q
    Triple-ok_or {Q = Q} o x h = record {
      holds =
          λ w a w' p e. let (found, same) = (ok_or-ok o x w e) in subst (Q a) same (h a w found p);
    }

    pub Triple-unwrap :
        {Q : A → World L → Type 0} (o : Option A)
        → ((a : A) (w : World L) → o ≡ some a → P w → Q a w)
        → Triple P (unwrap o) Q
    Triple-unwrap {Q = Q} o h = record {
      holds =
          λ w a w' p e. let (found, same) = (unwrap-ok o w e) in subst (Q a) same (h a w found p);
    }

    pub Triple-if :
        {Q : A → World L → Type 0} {m k : Call L A} (b : Bool)
        → Triple P m Q
        → Triple P k Q
        → Triple P (if b then m else k) Q
    Triple-if true h j = h
    Triple-if false h j = j

  module _ {P : World L → Type 0} where
    pub Keeps-when : {m : Call L Unit} (b : Bool) → Keeps P m → Keeps P (when b m)
    unfolding when
    Keeps-when true h = h
    Keeps-when false h = record { holds = λ w b w' p e. at_result (λ _. P) tt b w w' e p }

    -- Both outcomes of a test.
    pub Triple-when :
        {Q : Unit → World L → Type 0} {m : Call L Unit} (b : Bool)
        → (b ≡ true → Triple P m Q)
        → ((w : World L) → b ≡ false → P w → Q tt w)
        → Triple P (when b m) Q
    unfolding when
    Triple-when true h k = h refl
    Triple-when {Q} false h k = record {
      holds = λ w b w' p e. at_result Q tt b w w' e (k w refl p);
    }

    pub Keeps-skip : (m : Call L Unit) → Keeps P (when false m)
    unfolding when
    Keeps-skip m = record { holds = λ w b w' p e. at_result (λ _. P) tt b w w' e p }

    pub Keeps-reject_if : (b : Bool) (x : Error) → Keeps P (reject_if b x)
    unfolding reject_if
    Keeps-reject_if true x = record { holds = λ w b w' p e. cc e }
    Keeps-reject_if false x = record { holds = λ w b w' p e. at_result (λ _. P) tt b w w' e p }

    pub Triple-reject_if :
        {Q : Unit → World L → Type 0} (b : Bool) (x : Error)
        → ((w : World L) → b ≡ false → P w → Q tt w)
        → Triple P (reject_if b x) Q
    unfolding reject_if
    Triple-reject_if true x h = record { holds = λ w b w' p e. cc e }
    Triple-reject_if {Q} false x h = record {
      holds = λ w b w' p e. at_result Q tt b w w' e (h w refl p);
    }

    pub Keeps-modify :
        {Q : World L → Type 0} (f : World L → World L)
        → ((w : World L) → P w → Q (f w))
        → Triple P (modify f) (λ _. Q)
    unfolding modify
    Keeps-modify {Q} f h = record {
      holds = λ w b w' p e. at_result (λ _. Q) tt b (f w) w' e (h w p);
    }
