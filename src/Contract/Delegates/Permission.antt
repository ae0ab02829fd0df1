-- ===== src/Contract/Delegates/Permission.antt =====
-- Whom the delegated entry points serve: what a grant permits, said of its expiry and of the bits of its
-- mask, and that `check_delegate` and the six entry points ask for it.
use Prim.Native.Nat.{bit_and}
use fluxora_contracts.Base.{
  ℕ, ◌≤◌, ◌^◌, ◌≡◌, ◌↔◌, refl, sym, subst, ◌∙◌, ℤ, true, false, Option, none, some, ◌==◌, arith,
  bit, bit_and_power_iff,
}
use fluxora_contracts.Errors.{ok}
use fluxora_contracts.Types.{Address, DelegateGrant}
use fluxora_contracts.Host.{
  Env, World, Call, pure, fail, gets, reject_if, require_auth, ◌>>=◌, ◌>>◌,
}
use fluxora_contracts.Storage.{load_delegate}
use fluxora_contracts.Contract.Inversion.{>>=-ok, reject_if-ok}
use fluxora_contracts.Contract.Guards.{require_not_halted, check_delegate, check_grant, expired}
use fluxora_contracts.Contract.Delegates.{
  delegate_withdraw, delegate_cancel, delegate_pause, delegate_resume, delegate_top_up,
  delegate_transfer_recipient,
}

-- A call of a delegated entry point: the stream, the delegate and the other arguments.
pub data DelegateCall : Type 0 where
  withdrawing : ℕ → Address → Option ℤ → DelegateCall
  cancelling pausing resuming : ℕ → Address → DelegateCall
  topping_up : ℕ → Address → ℤ → DelegateCall
  transferring : ℕ → Address → Address → DelegateCall

abbrev pub stream_of : DelegateCall → ℕ
stream_of (withdrawing i d amount) = i
stream_of (cancelling i d) = i
stream_of (pausing i d) = i
stream_of (resuming i d) = i
stream_of (topping_up i d amount) = i
stream_of (transferring i d r) = i

abbrev pub delegate_of : DelegateCall → Address
delegate_of (withdrawing i d amount) = d
delegate_of (cancelling i d) = d
delegate_of (pausing i d) = d
delegate_of (resuming i d) = d
delegate_of (topping_up i d amount) = d
delegate_of (transferring i d r) = d

-- The place of the operation's bit in a grant's mask, from the lowest.
abbrev pub place_of : DelegateCall → ℕ
place_of (withdrawing i d amount) = 0
place_of (cancelling i d) = 1
place_of (pausing i d) = 2
place_of (resuming i d) = 3
place_of (topping_up i d amount) = 4
place_of (transferring i d r) = 5

abbrev pub run : {L : Type 0} → Env L → DelegateCall → Call L Unit
run e (withdrawing i d amount) = delegate_withdraw e i d amount >>= λ _. pure tt
run e (cancelling i d) = delegate_cancel e i d
run e (pausing i d) = delegate_pause e i d
run e (resuming i d) = delegate_resume e i d
run e (topping_up i d amount) = delegate_top_up e i d amount
run e (transferring i d r) = delegate_transfer_recipient e i d r

-- The delegate has signed and holds a grant for the stream whose bit with the place `k` is set and whose
-- last instant, where it has one, has not passed.
pub record IsPermitted {L : Type 0} (e : Env L) (w : World L) (i : ℕ) (caller : Address) (k : ℕ)
    : Type 0 where
  pub grant : DelegateGrant
  pub stored : load_delegate w i caller ≡ some grant
  pub unexpired : (t : ℕ) → grant.expires_at ≡ some t → e.now ≤ t
  pub covers : bit k grant.ops ≡ 1
  pub signed : e.authorized caller ≡ true

expired-false :
    (o : Option ℕ) (now : ℕ) → (expired o now ≡ false) ↔ ((t : ℕ) → o ≡ some t → now ≤ t)
expired-false none now = (λ h t e. cc, λ h. refl)
expired-false (some s) now =
    (λ h t e. ground (arith, h, e), λ h. let late = h s refl in ground (arith, late))

module _ {L : Type 0} where
  require_not_halted-ok :
      (w w' : World L) {u : Unit {0}} → require_not_halted w ≡ ok (u, w') → w ≡ w'
  unfolding require_not_halted ◌>>=◌ gets
  require_not_halted-ok w w' h = (reject_if-ok _ _ w h).1

  require_auth-ok :
      (e : Env L) (caller : Address) (w w' : World L)
      → require_auth e caller w ≡ ok (tt, w')
      → (e.authorized caller ≡ true) × (w' ≡ w)
  unfolding require_auth
  require_auth-ok e caller w w' h = (ground arith, ground arith)

module _ {L : Type 0} (e : Env L) where
  check_grant-IsPermitted :
      (i : ℕ) (caller : Address) (k : ℕ) (g : Option DelegateGrant) (w w' : World L)
      → load_delegate w i caller ≡ g
      → check_grant e g caller (2 ^ k) w ≡ ok (tt, w')
      → IsPermitted e w i caller k × (w' ≡ w)
  unfolding check_grant fail
  check_grant-IsPermitted i caller k none w w' stored h = cc
  check_grant-IsPermitted i caller k (some g) w w' stored h =
      let (_, w1, h1, r1) = >>=-ok (reject_if (expired g.expires_at e.now) _) _ w h in
      let (_, w2, h2, r2) = >>=-ok (reject_if (bit_and g.ops (2 ^ k) == 0) _) _ w1 r1 in
      let (alive, same1) = reject_if-ok _ _ w h1 in
      let (hit, same2) = reject_if-ok _ _ w1 h2 in
      let (allowed, same3) = require_auth-ok e caller w2 w' r2 in
      (
        record {
          grant = g;
          stored = stored;
          unexpired = (expired-false g.expires_at e.now).0 alive;
          covers = (bit_and_power_iff g.ops k).0 hit;
          signed = allowed;
        },
        same3 ∙ sym same2 ∙ sym same1,
      )

  IsPermitted-check_grant :
      {i : ℕ} {caller : Address} {k : ℕ} {w : World L} (p : IsPermitted e w i caller k)
      → check_grant e (some p.grant) caller (2 ^ k) w ≡ ok (tt, w)
  unfolding check_grant ◌>>=◌ reject_if require_auth
  IsPermitted-check_grant {i} {caller} {k} {w} p =
      let alive = (expired-false p.grant.expires_at e.now).1 p.unexpired in
      let hit = (bit_and_power_iff p.grant.ops k).1 p.covers in rw alive (rw hit (rw p.signed refl))

  -- The check passes, without a change, exactly where a grant permits the operation.
  check_delegate_iff :
      (i : ℕ) (caller : Address) (k : ℕ) (w w' : World L)
      → (check_delegate e i caller (2 ^ k) w ≡ ok (tt, w'))
        ↔ (IsPermitted e w i caller k × (w' ≡ w))
  unfolding check_delegate ◌>>=◌ gets
  check_delegate_iff i caller k w w' = (
    check_grant-IsPermitted i caller k (load_delegate w i caller) w w' refl,
    λ p. rw p.0.stored (rw p.1 (IsPermitted-check_grant p.0)),
  )

  served :
      {A : Type 0} (i : ℕ) (caller : Address) (k : ℕ) (f : Unit → Call L A) {a : A} (w : World L)
      {w' : World L}
      → (require_not_halted >> (check_delegate e i caller (2 ^ k) >>= f)) w ≡ ok (a, w')
      → IsPermitted e w i caller k
  served i caller k f w h =
      let (_, w1, h1, r1) = >>=-ok require_not_halted _ w h in
      let (_, w2, h2, r2) = >>=-ok (check_delegate e i caller (2 ^ k)) _ w1 r1 in
      let permitted = ((check_delegate_iff i caller k w1 w2).0 h2).0 in
      subst (λ v. IsPermitted e v i caller k) (sym (require_not_halted-ok w w1 h1)) permitted

  -- When any of the six delegated entry points succeeds, delegate_top_up included, the delegate has
  -- signed and a grant was stored for this stream and delegate whose last instant, where it has
  -- one, is not before now and whose mask has the bit of that operation: bit 0 for withdraw, then
  -- cancel, pause, resume, top_up and transfer_recipient.
  pub run-IsPermitted :
      (c : DelegateCall) (w w' : World L)
      → run e c w ≡ ok (tt, w')
      → IsPermitted e w (stream_of c) (delegate_of c) (place_of c)
  unfolding delegate_withdraw delegate_cancel delegate_pause delegate_resume delegate_top_up
      delegate_transfer_recipient
  run-IsPermitted (withdrawing i d amount) w w' h =
      let (_, w1, h1, r1) = >>=-ok (delegate_withdraw e i d amount) _ w h in served i d 0 _ w h1
  run-IsPermitted (cancelling i d) w w' h = served i d 1 _ w h
  run-IsPermitted (pausing i d) w w' h = served i d 2 _ w h
  run-IsPermitted (resuming i d) w w' h = served i d 3 _ w h
  run-IsPermitted (topping_up i d amount) w w' h = served i d 4 _ w h
  run-IsPermitted (transferring i d r) w w' h = served i d 5 _ w h
