-- ===== src/Contract/Book/Notices.antt =====
-- The book under the events that check their amount.
use fluxora_contracts.Base.{ℕ, ℤ}
use fluxora_contracts.Types.{Stream}
use fluxora_contracts.Publish.{withdrawn_event, topped_up_event, panic}
use fluxora_contracts.Contract.Triple.{Keeps, Triple-pure, Triple-if}
use fluxora_contracts.Contract.Book.{Book, Over, publish-Keeps}

module _ {L : Type 0} {Q : Book → Type 0} where
  panic-Keeps : Keeps {L = L} (Over Q) panic
  unfolding panic
  panic-Keeps = record { holds = λ w b w' p h. cc h }

  pub withdrawn_event-Keeps :
      (i : ℕ) (s : Stream) (amount : ℤ) → Keeps {L = L} (Over Q) (withdrawn_event i s amount)
  unfolding withdrawn_event
  withdrawn_event-Keeps i s amount =
      Triple-if _ (Triple-pure tt (λ w p. p)) (Triple-if _ (publish-Keeps _) panic-Keeps)

  pub topped_up_event-Keeps :
      (i : ℕ) (s : Stream) (amount : ℤ) → Keeps {L = L} (Over Q) (topped_up_event i s amount)
  unfolding topped_up_event
  topped_up_event-Keeps i s amount =
      Triple-if _ (Triple-pure tt (λ w p. p)) (Triple-if _ (publish-Keeps _) panic-Keeps)
