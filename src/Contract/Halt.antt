-- ===== src/Contract/Halt.antt =====
-- The emergency halt.
pub mod Refusal
use fluxora_contracts.Base.{ℕ, ◌-◌, Option, Bool}
use fluxora_contracts.Errors.{
  halt_operator_already_set, halt_operator_not_set, contract_already_halted, contract_not_halted,
}
use fluxora_contracts.Types.{Address, is_some}
use fluxora_contracts.Host.{Env, World, Call, gets, ok_or, reject_if, require_auth, ◌>>=◌, ◌>>◌}
use fluxora_contracts.Storage
use fluxora_contracts.Storage.{is_halted, set_halt, clear_halt}
use fluxora_contracts.Publish.{halt_operator_set, contract_halted, contract_resumed}

module _ {L : Type 0} where
  unfoldable pub set_halt_operator : Env L → Address → Call L Unit
  set_halt_operator e operator = do
    require_auth e operator
    installed ← gets (λ w. is_some w.operator)
    reject_if installed halt_operator_already_set
    Storage.set_halt_operator e operator
    halt_operator_set operator

  unfoldable pub halt : Env L → Call L Unit
  halt e = do
    installed ← gets (λ w. w.operator)
    operator ← ok_or installed halt_operator_not_set
    require_auth e operator
    halted ← gets is_halted
    reject_if halted contract_already_halted
    set_halt e
    contract_halted operator e.now

  unfoldable pub resume_contract : Env L → Call L Unit
  resume_contract e = do
    installed ← gets (λ w. w.operator)
    operator ← ok_or installed halt_operator_not_set
    require_auth e operator
    since ← gets (λ w. w.halted_at)
    halted_at ← ok_or since contract_not_halted
    clear_halt e
    contract_resumed operator e.now (e.now - halted_at)

  unfoldable pub halted : World L → Bool
  halted w = is_halted w

  unfoldable pub halt_operator : World L → Option Address
  halt_operator w = w.operator
