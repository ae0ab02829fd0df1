-- ===== src/Contract/Pool/Created.antt =====
-- The pools under the creation of a stream and under `reclaim_dust`.
use fluxora_contracts.Base.{
  ℕ, ◌≡◌, true, pos, pos_part, ltb_ℤ, arith, ap, sym, inl, inr, Bool-cases,
}
use fluxora_contracts.Errors.{ok}
use fluxora_contracts.Types.{Address, Stream, is_terminal}
use fluxora_contracts.Host.{Env}
use fluxora_contracts.Storage.{save_stream}
use fluxora_contracts.Publish.{stream_created}
use fluxora_contracts.Transition.Create.{StreamTerms, check_terms, new_stream}
use fluxora_contracts.Transition.Cancel.{dust}
use fluxora_contracts.Contract.Triple.{
  Triple, Triple-bind, Triple-weaken, Triple-pure, Triple-lift, Triple-when,
}
use fluxora_contracts.Contract.Book.{
  Over, with_fact, given, publish-Keeps, next_stream_id-next, extend_instance-Keeps,
  require_auth-Keeps,
}
use fluxora_contracts.Contract.Create.{create_stream_inner}
use fluxora_contracts.Contract.Cancel.{reclaim_terminal, reclaim_dust}
use fluxora_contracts.Contract.Keeps.{lift-keeps}
use fluxora_contracts.Contract.Keeps.Dust.{dust-zero}
use fluxora_contracts.Contract.Pool.{held, Balanced}
use fluxora_contracts.Contract.Pool.Moves.{new_stream-held}
use fluxora_contracts.Contract.Pool.Posts.{post, Balanced-enter_new, save_stream-enters}
use fluxora_contracts.Contract.Pool.Settles.{Agree, Agreed, retarget, pull_deposit-raises}
use fluxora_contracts.Contract.Pool.Keeps.{Any, Settles, Ready, loaded}

module _ {L : Type 0} (e : Env L) where
  -- A new stream under the next id holds what arrived for it.
  entered :
      (i : ℕ) (s : Stream) (t : Address)
      → s.token ≡ t
      → Triple
          (Over (λ b. Balanced t (held s) 0 b × (b.next ≡ i)))
          (save_stream e i s)
          (λ _. Over Agree)
  entered i s t same =
      save_stream-enters e i s
        (λ b p. rw (sym p.1) (retarget 0 _ (Balanced-enter_new 0 0 b s same (omega arith) p.0)))

  pub create_stream_inner-Settles :
      (sender : Address) (t : StreamTerms) → Settles e (create_stream_inner e sender t)
  unfolding create_stream_inner stream_created post
  create_stream_inner-Settles sender t =
      Triple-bind
        (Triple-lift {Q = λ _ w. Over Agree w × (check_terms sender t ≡ ok tt)}
          (check_terms sender t) (λ u w eq p. (record { sees = p.sees.1 }, eq)))
        (λ _. given (λ checked.
          let (deposit, token) = new_stream-held sender t checked in
          Triple-bind (next_stream_id-next e) (λ i.
            Triple-bind
              (Triple-weaken (λ w p. record { sees = (retarget t.token _ p.sees.0, p.sees.1) })
                (λ a w p. p)
                (pull_deposit-raises e {F = λ b. b.next ≡ i} (λ t' k b f. f) t.token sender
                  t.deposit (ground (arith, deposit))))
              (λ _.
                Triple-bind
                  (rw (ap pos_part deposit) (entered i (new_stream sender t) t.token token))
                  (λ _.
                    Triple-bind (extend_instance-Keeps e)
                      (λ _. Triple-bind (publish-Keeps _) (λ _. Triple-pure i (λ w p. p))))))))

  reclaim_terminal-agrees :
      (i : ℕ) (s : Stream)
      → is_terminal s.status ≡ true
      → Triple (Ready e i s) (reclaim_terminal e i s) (λ _. Over (Agreed Any))
  unfolding reclaim_terminal
  reclaim_terminal-agrees i s h =
      Triple-bind
        (lift-keeps e (dust s e.now) (λ a. a ≡ pos 0)
          (λ a eq f. ground (arith, dust-zero s e.now f h)))
        (λ a.
          Triple-bind
            (Triple-when (ltb_ℤ (pos 0) a)
              (λ some_dust. record { holds = λ w b w' p eq. absurd (ground arith) })
              (λ w none_left p. record { sees = (retarget 0 _ p.0.sees.0, tt) }))
            (λ _. Triple-pure a (λ w p. p)))

  pub reclaim_dust-Settles : (i : ℕ) → Settles e (reclaim_dust e i)
  unfolding reclaim_dust
  reclaim_dust-Settles i = loaded e i (λ s.
      Triple-bind (with_fact (require_auth-Keeps e s.sender)) (λ _.
        elim (Bool-cases (is_terminal s.status)) [
          | inl t ↦ rw t (reclaim_terminal-agrees i s t)
          | inr f ↦
              rw f (Triple-pure (pos 0) (λ w p. record { sees = (retarget 0 _ p.0.sees.0, tt) }))
        ]))
