-- ===== src/Contract/Pool/Moves.antt =====
-- What the transitions of a stream change in what it holds.
use fluxora_contracts.Base.{
  ℕ, ◌+◌, ◌+ℤ◌, ◌∙◌, ◌-◌, ◌≤◌, ◌≡◌, refl, subst, ap, ℤ, pos, pos_part, Option, arith,
}
use fluxora_contracts.Errors.{ok}
use fluxora_contracts.Types.{Address, Stream}
use fluxora_contracts.Accrual.Bounds.{pos_of_nonneg}
use fluxora_contracts.Transition.Create.{StreamTerms, check_terms, new_stream}
use fluxora_contracts.Transition.Withdraw.{choose_payout, drawn}
use fluxora_contracts.Transition.Withdraw.Payout.{choose_payout-eq, drawn-HasDrawn}
use fluxora_contracts.Transition.Withdraw.Keeps.{withdrawable-eq}
use fluxora_contracts.Transition.Cancel.{quote_cancel, settled}
use fluxora_contracts.Transition.Cancel.Settlement.{quote_cancel-partition}
use fluxora_contracts.Transition.TopUp.{topped_up}
use fluxora_contracts.Transition.TopUp.Vesting.{topped_up-eq}
use fluxora_contracts.Transition.Pause.{
  frozen, thawed, pause_stream, resume_stream, delegate_pause_stream, delegate_resume_stream,
}
use fluxora_contracts.Transition.Transfer.{assigned, transfer_stream, delegate_transfer_stream}
use fluxora_contracts.Transition.Invariant.{
  IsWellFormed, vested_amount, vested_amount-le, vested_amount_unique,
}
use fluxora_contracts.Transition.Invariant.Keeps.{new_stream-IsWellFormed}
use fluxora_contracts.Contract.Pool.{held}

-- A transition after which a stream of the same token holds `gain` more or `loss` less.
pub record Moves (s s' : Stream) (gain loss : ℕ) : Type 0 where
  pub token : s'.token ≡ s.token
  pub amount : held s' + loss ≡ held s + gain

module _ (now : ℕ) (s : Stream) where
  pub drawn-Moves :
      (amount : Option ℤ) {payout : ℤ} {s' : Stream}
      → choose_payout s now amount ≡ ok payout
      → IsWellFormed now s
      → drawn s payout now ≡ ok s'
      → (payout ≡ pos (pos_part payout))
        × (pos_part payout ≤ held s)
        × Moves s s' 0 (pos_part payout)
  drawn-Moves amount {payout} {s'} chosen i e =
      let (p, is_p, positive, within, all, asked) =
        choose_payout-eq s now (vested_amount s now - pos_part s.withdrawn) amount
          (withdrawable-eq now s i) chosen in
      let d =
        drawn-HasDrawn s p now i.withdrawn_nonneg
          (subst (λ (z : ℤ). drawn s z now ≡ ok s') is_p e) in
      let bound = vested_amount-le s now in
      (
        ground (arith, is_p),
        ground (arith, is_p, within, bound),
        record {
          token = d.token;
          amount = ground (arith, is_p, within, bound, d.withdrawn, d.deposited, i.covered);
        },
      )

  pub settled-Moves :
      {v r : ℤ}
      → quote_cancel s now ≡ ok (v, r)
      → IsWellFormed now s
      → (r ≡ pos (pos_part r)) × Moves s (settled s now v) 0 (pos_part r)
  unfolding settled ◌+ℤ◌
  settled-Moves {v} {r} e i =
      let (vest, sum, v_nonneg, r_nonneg) = quote_cancel-partition s now i.funded e in
      let is_v = pos_of_nonneg v v_nonneg in
      let is_r = pos_of_nonneg r r_nonneg in
      let same = vested_amount_unique s now (pos_part v) i.funded (vest ∙ ap ok is_v) in
      (is_r, record { token = refl; amount = ground (arith, sum, is_v, is_r, same, i.covered) })

  pub topped_up-Moves :
      (amount : ℤ) {s' : Stream}
      → topped_up s amount now ≡ ok s'
      → IsWellFormed now s
      → (amount ≡ pos (pos_part amount)) × Moves s s' (pos_part amount) 0
  topped_up-Moves amount {s'} e i =
      let (a, x, is_a, pos_a, g, extends, open_end, live) =
        topped_up-eq s amount now i.funded.nonneg e in
      let covers = vested_amount-le s now in
      let token = ap (λ (r : Stream). r.token) g.same in
      let deposited = ap (λ (r : Stream). pos_part r.deposited) g.same in
      let withdrawn = ap (λ (r : Stream). pos_part r.withdrawn) g.same in
      (
        ground (arith, is_a),
        record {
          token = token;
          amount = ground (arith, is_a, covers, i.covered, deposited, withdrawn);
        },
      )

  pub pause_stream-Moves : (s' : Stream) → pause_stream s now ≡ ok s' → Moves s s' 0 0
  unfolding pause_stream frozen
  pause_stream-Moves s' e = record { token = ground arith; amount = ground arith }

  pub delegate_pause_stream-Moves :
      (s' : Stream) → delegate_pause_stream s now ≡ ok s' → Moves s s' 0 0
  unfolding delegate_pause_stream frozen
  delegate_pause_stream-Moves s' e = record { token = ground arith; amount = ground arith }

  pub resume_stream-Moves : (r : Stream × ℕ) → resume_stream s now ≡ ok r → Moves s r.0 0 0
  unfolding resume_stream thawed
  resume_stream-Moves r e = record { token = ground arith; amount = ground arith }

  pub delegate_resume_stream-Moves :
      (r : Stream × ℕ) → delegate_resume_stream s now ≡ ok r → Moves s r.0 0 0
  unfolding delegate_resume_stream thawed
  delegate_resume_stream-Moves r e = record { token = ground arith; amount = ground arith }

  pub transfer_stream-Moves :
      (a : Address) (s' : Stream) → transfer_stream s a now ≡ ok s' → Moves s s' 0 0
  unfolding transfer_stream assigned
  transfer_stream-Moves a s' e = record { token = ground arith; amount = ground arith }

  pub delegate_transfer_stream-Moves :
      (a : Address) (s' : Stream) → delegate_transfer_stream s a ≡ ok s' → Moves s s' 0 0
  unfolding delegate_transfer_stream assigned
  delegate_transfer_stream-Moves a s' e = record { token = ground arith; amount = ground arith }

pub new_stream-held :
    (sender : Address) (t : StreamTerms)
    → check_terms sender t ≡ ok tt
    → (t.deposit ≡ pos (held (new_stream sender t))) × ((new_stream sender t).token ≡ t.token)
unfolding new_stream
new_stream-held sender t e =
    let i = new_stream-IsWellFormed sender t 0 e in
    (ground (arith, pos_of_nonneg t.deposit i.funded.nonneg), refl)
