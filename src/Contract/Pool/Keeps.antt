-- ===== src/Contract/Pool/Keeps.antt =====
-- The pools under the direct entry points on one stream.
use fluxora_contracts.Base.{ℕ, ◌≡◌, ℤ, pos, pos_part, Option, some}
use fluxora_contracts.Errors.{ok}
use fluxora_contracts.Types.{Address, Stream}
use fluxora_contracts.Host.{Env, World, Call, ◌>>=◌, ◌>>◌}
use fluxora_contracts.Storage.{load_stream, save_stream}
use fluxora_contracts.Publish.{paused_event, resumed_event, recipient_transferred}
use fluxora_contracts.Transition.Withdraw.{choose_payout}
use fluxora_contracts.Transition.Cancel.{quote_cancel}
use fluxora_contracts.Transition.TopUp.{topped_up}
use fluxora_contracts.Transition.Pause.{pause_stream, resume_stream}
use fluxora_contracts.Transition.Transfer.{transfer_stream}
use fluxora_contracts.Transition.Invariant.{IsWellFormed}
use fluxora_contracts.Contract.Triple.{Triple, Keeps, Triple-bind, Triple-weaken, Triple-pure}
use fluxora_contracts.Contract.Book.{
  Book, Over, given, verify_pool_balance-Keeps, publish-Keeps, require_not_halted-Keeps,
  load_stream-finds,
}
use fluxora_contracts.Contract.Book.Notices.{topped_up_event-Keeps}
use fluxora_contracts.Contract.Frame.{AllIn}
use fluxora_contracts.Contract.Payments.{pull_deposit}
use fluxora_contracts.Contract.TopUp.{top_up}
use fluxora_contracts.Contract.Withdraw.{withdraw}
use fluxora_contracts.Contract.Cancel.{cancel}
use fluxora_contracts.Contract.Pause.{pause, resume}
use fluxora_contracts.Contract.Transfer.{transfer_recipient}
use fluxora_contracts.Contract.Keeps.{AllWellFormed, authorized, Chosen}
use fluxora_contracts.Contract.Pool.{Balanced}
use fluxora_contracts.Contract.Pool.Moves.{
  Moves, topped_up-Moves, pause_stream-Moves, resume_stream-Moves, transfer_stream-Moves,
}
use fluxora_contracts.Contract.Pool.Posts.{post}
use fluxora_contracts.Contract.Pool.Settles.{
  Agree, Agreed, Held, Spares, retarget, save_stream-agrees, pull_deposit-raises,
  apply_withdrawal-agrees, settle_cancel-agrees,
}

abbrev pub Any : Book → Type 0
Any b = Unit

pub Any-spared : (i : ℕ) → Spares i Any
Any-spared i = record { on_post = λ t k b f. tt; on_enter = λ s b f. tt }

-- Every stream is well-formed, and every pool agrees with the streams.
abbrev pub Level : ℕ → Book → Type 0
Level now b = AllIn (IsWellFormed now) b × Agree b

-- A call from a level world that ends with all pools in agreement.
abbrev pub Settles : {L A : Type 0} → Env L → Call L A → Type 0
Settles {L} e m = Triple {L = L} (Over (Level e.now)) m (λ _. Over Agree)

-- With the streams kept well-formed the world is level again.
pub Level-again :
    {L A : Type 0} (e : Env L) {m : Call L A}
    → Keeps (AllWellFormed e.now) m
    → Settles e m
    → Keeps (Over (Level e.now)) m
Level-again e h k = record {
  holds = λ w a w' p eq. record {
    sees = ((h.holds w a w' (record { sees = p.sees.0 }) eq).sees, (k.holds w a w' p eq).sees);
  };
}

module _ {L : Type 0} (e : Env L) where
  abbrev pub Ready : ℕ → Stream → World L → Type 0
  Ready i s w = Over (Held i s 0 0 Any) w × IsWellFormed e.now s

  ready :
      {i : ℕ} (s : Stream) (w : World L)
      → Over (λ b. Level e.now b × (b.found i ≡ some s)) w
      → Ready i s w
  ready {i} s w p = (
    record { sees = (retarget s.token _ p.sees.0.1, (p.sees.1, tt)) },
    p.sees.0.0.every i s p.sees.1,
  )

  pub loaded :
      {A : Type 0} (i : ℕ) {f : Stream → Call L A}
      → ((s : Stream) → Triple (Ready i s) (f s) (λ _. Over (Agreed Any)))
      → Settles e (load_stream e i >>= f)
  loaded i h =
      Triple-weaken (λ w p. p) (λ a w p. record { sees = p.sees.0 })
        (Triple-bind (Triple-weaken (λ w p. p) ready (load_stream-finds e i)) h)

  -- A stream that holds as much as before is saved.
  pub kept :
      (i : ℕ) (s s' : Stream) {m : Call L Unit}
      → Keeps (Over (Agreed Any)) m
      → Triple
          (λ w. Over (Held i s 0 0 Any) w × Moves s s' 0 0)
          (save_stream e i s' >> m)
          (λ _. Over (Agreed Any))
  kept i s s' h =
      given (λ m. Triple-bind (save_stream-agrees e i s (Any-spared i) s' 0 0 m) (λ _. h))

  pub pause-Settles : (i : ℕ) → Settles e (pause e i)
  unfolding pause paused_event
  pause-Settles i = Triple-bind require_not_halted-Keeps (λ _. loaded i (λ s.
      authorized e s.sender (pause_stream s e.now) (λ s'. Moves s s' 0 0)
        (λ s' eq h. pause_stream-Moves e.now s s' eq) (λ s'. kept i s s' (publish-Keeps _))))

  pub resume-Settles : (i : ℕ) → Settles e (resume e i)
  unfolding resume resumed_event
  resume-Settles i = Triple-bind require_not_halted-Keeps (λ _. loaded i (λ s.
      authorized e s.sender (resume_stream s e.now) (λ r. Moves s r.0 0 0)
        (λ r eq h. resume_stream-Moves e.now s r eq) (λ r. kept i s r.0 (publish-Keeps _))))

  pub transfer_recipient-Settles : (i : ℕ) (a : Address) → Settles e (transfer_recipient e i a)
  unfolding transfer_recipient recipient_transferred
  transfer_recipient-Settles i a = Triple-bind require_not_halted-Keeps (λ _. loaded i (λ s.
      authorized e s.sender (transfer_stream s a e.now) (λ s'. Moves s s' 0 0)
        (λ s' eq h. transfer_stream-Moves e.now s a s' eq) (λ s'. kept i s s' (publish-Keeps _))))

  pub withdraw-Settles : (i : ℕ) (amount : Option ℤ) → Settles e (withdraw e i amount)
  unfolding withdraw
  withdraw-Settles i amount = Triple-bind require_not_halted-Keeps (λ _. loaded i (λ s.
      authorized e s.recipient (choose_payout s e.now amount) (Chosen e s amount)
        (λ payout eq h. (h, eq))
        (λ payout.
          Triple-bind (apply_withdrawal-agrees e i s (Any-spared i) amount payout) (λ _.
            Triple-bind (verify_pool_balance-Keeps e _) (λ _. Triple-pure payout (λ w p. p))))))

  pub cancel-Settles : (i : ℕ) → Settles e (cancel e i)
  unfolding cancel
  cancel-Settles i = Triple-bind require_not_halted-Keeps (λ _. loaded i (λ s.
      authorized e s.sender (quote_cancel s e.now)
        (λ q. IsWellFormed e.now s × (quote_cancel s e.now ≡ ok q)) (λ q eq h. (h, eq))
        (λ q. settle_cancel-agrees e i s (Any-spared i) q.0 q.1)))

  -- The deposit of a stream that is about to hold it.
  raised :
      {F : Book → Type 0}
      → ((t : Address) (k : ℤ) (b : Book) → F b → F (post t k b))
      → (t u from : Address) (amount : ℤ) → t ≡ u
      → amount ≡ pos (pos_part amount)
      → Triple
          (Over (λ b. Balanced u 0 0 b × F b))
          (pull_deposit e t from amount)
          (λ _. Over (λ b. Balanced u (pos_part amount) 0 b × F b))
  raised spared t u from amount same is_pos =
      rw same (pull_deposit-raises e spared u from amount is_pos)

  pub top_up-Settles : (i : ℕ) (amount : ℤ) → Settles e (top_up e i amount)
  unfolding top_up post
  top_up-Settles i amount = Triple-bind require_not_halted-Keeps (λ _. loaded i (λ s.
      authorized e s.sender (topped_up s amount e.now)
        (λ s'. (amount ≡ pos (pos_part amount)) × Moves s s' (pos_part amount) 0)
        (λ s' eq h. topped_up-Moves e.now s amount eq h)
        (λ s'. given (λ m.
          Triple-bind
            (raised {F = λ b. (b.found i ≡ some s) × Any b} (λ t k b f. f) s'.token s.token
              s'.sender amount m.1.token m.0)
            (λ _. Triple-bind (verify_pool_balance-Keeps e _) (λ _.
              Triple-bind (save_stream-agrees e i s (Any-spared i) s' (pos_part amount) 0 m.1)
                (λ _. topped_up_event-Keeps i s' amount)))))))
