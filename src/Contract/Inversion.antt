-- ===== src/Contract/Inversion.antt =====
-- What a call that succeeds did: inversions of the parts that the entry points are put together from.
use fluxora_contracts.Base.{◌≡◌, refl, Bool, true, false, Option, none, some}
use fluxora_contracts.Errors.{Error, Result, ok, err, trap}
use fluxora_contracts.Host.{World, Call, lift, unwrap, ok_or, reject_if, continue, ◌>>=◌}

module _ {L : Type 0} where
  pub continue-ok :
      {A B : Type 0} (r : Result (A × World L)) (f : A → Call L B) {b : B} {w : World L}
      → continue r f ≡ ok (b, w)
      → (a : A) × (w' : World L) × (r ≡ ok (a, w')) × (f a w' ≡ ok (b, w))
  continue-ok (ok (a, w')) f e = (a, w', refl, e)
  continue-ok (err x) f e = cc
  continue-ok trap f e = cc

  pub >>=-ok :
      {A B : Type 0} (m : Call L A) (f : A → Call L B) (w : World L) {b : B} {w'' : World L}
      → (m >>= f) w ≡ ok (b, w'')
      → (a : A) × (w' : World L) × (m w ≡ ok (a, w')) × (f a w' ≡ ok (b, w''))
  unfolding ◌>>=◌
  >>=-ok m f w e = continue-ok (m w) f e

  pub lift-ok :
      {A : Type 0} (r : Result A) (w : World L) {a : A} {w' : World L}
      → lift r w ≡ ok (a, w')
      → (r ≡ ok a) × (w ≡ w')
  unfolding lift
  lift-ok (ok a) w e = (cc, cc)
  lift-ok (err x) w e = cc
  lift-ok trap w e = cc

  pub unwrap-ok :
      {A : Type 0} (o : Option A) (w : World L) {a : A} {w' : World L}
      → unwrap o w ≡ ok (a, w')
      → (o ≡ some a) × (w ≡ w')
  unfolding unwrap
  unwrap-ok none w e = cc
  unwrap-ok (some a) w e = (cc, cc)

  pub ok_or-ok :
      {A : Type 0} (o : Option A) (x : Error) (w : World L) {a : A} {w' : World L}
      → ok_or o x w ≡ ok (a, w')
      → (o ≡ some a) × (w ≡ w')
  unfolding ok_or
  ok_or-ok none x w e = cc
  ok_or-ok (some a) x w e = (cc, cc)

  pub reject_if-ok :
      (b : Bool) (x : Error) (w : World L) {u : Unit {0}} {w' : World L}
      → reject_if b x w ≡ ok (u, w')
      → (b ≡ false) × (w ≡ w')
  unfolding reject_if
  reject_if-ok true x w e = cc
  reject_if-ok false x w e = (refl, cc)
