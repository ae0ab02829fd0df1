-- ===== src/Transition/Withdraw/Payout.antt =====
-- What a withdrawal may pay, and what it changes in the stream.
use fluxora_contracts.Base.{
  ℕ, ◌+◌, ◌≤◌, ◌<◌, ◌≡◌, refl, Option, none, some, ℤ, pos, pos_part, ◌≤ℤ◌, arith, i128_limit,
  checked_add-cases, checked_add_u64,
}
use fluxora_contracts.Errors.{ok}
use fluxora_contracts.Types.{Stream}
use fluxora_contracts.Accrual.{withdrawable}
use fluxora_contracts.Accrual.Bounds.{pos_of_nonneg}
use fluxora_contracts.Transition.Withdraw.{choose_payout, drawn}

-- When a payout is chosen from a withdrawable amount that is not negative, it is positive and at
-- most that amount; without a request it is all of it, and with a request it is the request.
pub choose_payout-eq :
    (s : Stream) (now available : ℕ) (amount : Option ℤ) {payout : ℤ}
    → withdrawable s now ≡ ok (pos available)
    → choose_payout s now amount ≡ ok payout
    → (p : ℕ) × (payout ≡ pos p)
      × (0 < p)
      × (p ≤ available)
      × (amount ≡ none → p ≡ available)
      × ((requested : ℤ) → amount ≡ some requested → payout ≡ requested)
unfolding choose_payout
choose_payout-eq s now available none {payout} w e =
    (available, ground arith, ground arith, omega arith, λ _. refl, λ r h. cc)
choose_payout-eq s now available (some requested) {payout} w e =
    (pos_part requested, ground arith, ground arith, ground arith, λ h. cc, λ r h. ground arith)

-- A withdrawal changes what is withdrawn and, on depletion, the status and the pause.
pub record HasDrawn (s : Stream) (p now : ℕ) (s' : Stream) : Type 0 where
  pub withdrawn : s'.withdrawn ≡ pos (pos_part s.withdrawn + p)
  pub in_range : pos_part s.withdrawn + p < i128_limit
  pub deposited : s'.deposited ≡ s.deposited
  pub token : s'.token ≡ s.token
  pub sender : s'.sender ≡ s.sender
  pub recipient : s'.recipient ≡ s.recipient

pub drawn-HasDrawn :
    (s : Stream) (p now : ℕ) {s' : Stream}
    → pos 0 ≤ℤ s.withdrawn
    → drawn s (pos p) now ≡ ok s'
    → HasDrawn s p now s'
unfolding drawn checked_add_u64
drawn-HasDrawn s p now {s'} h e =
    let w = pos_of_nonneg s.withdrawn h in
    let add = checked_add-cases (pos_part s.withdrawn) p in
    record {
      withdrawn = ground (arith, w, add);
      in_range = ground (arith, w, add);
      deposited = ground (arith, w, add);
      token = ground (arith, w, add);
      sender = ground (arith, w, add);
      recipient = ground (arith, w, add);
    }
