-- ===== src/Contract/Pool.antt =====
-- The recorded balance of a token's pool against what the streams of the token still hold. Inside a
-- call the two differ by the amount that one of them has moved already.

pub mod Posts
pub mod Moves
pub mod Settles
pub mod Keeps
pub mod Delegated
pub mod Created
pub mod Batches
pub mod Operations
pub mod Deployed
pub mod Solvent
pub mod Refinement
use fluxora_contracts.Base.{
  ℕ, zero, suc, ◌+◌, ◌-◌, ◌≤◌, ◌<◌, ◌≡◌, ℤ, pos, pos_part, Option, none, some, arith, inl, inr,
  if◌then◌else◌, ◌==◌, Bool-cases, true, false, refl,
}
use fluxora_contracts.Types.{Address, Stream}
use fluxora_contracts.Host.{update}
use fluxora_contracts.Contract.Book.{Book}

-- What a stream still holds for its two parties.
abbrev pub held : Stream → ℕ
held s = pos_part s.deposited - pos_part s.withdrawn

abbrev pub held_in : Address → Option Stream → ℕ
held_in token none = 0
held_in token (some s) = if s.token == token then held s else 0

-- The sum over the streams with an id below the bound.
unfoldable pub total_held : (ℕ → Option Stream) → Address → ℕ → ℕ
total_held found token zero = 0
total_held found token (suc n) = total_held found token n + held_in token (found n)

-- An amount that counts for one token.
abbrev pub counted : Address → Address → ℕ → ℕ
counted t token n = if t == token then n else 0

-- In the token `t` the pool is `up` above and `down` below what the streams hold; in every other token
-- the two agree. No id from the next one on is in use.
pub record Balanced (t : Address) (up down : ℕ) (b : Book) : Type 0 where
  pub recorded : (token : Address) → b.pool token ≡ pos (pos_part (b.pool token))
  pub agrees :
      (token : Address)
      → pos_part (b.pool token) + counted t token down
        ≡ total_held b.found token b.next + counted t token up
  pub unused : (i : ℕ) → b.next ≤ i → b.found i ≡ none

pub total_held-above :
    (f : ℕ → Option Stream) (token : Address) (i n : ℕ) (o : Option Stream)
    → n ≤ i
    → total_held (update f i o) token n ≡ total_held f token n
unfolding total_held
total_held-above f token i zero o h = refl
total_held-above f token i (suc n) o h =
    let rest = total_held-above f token i n o (omega (arith, h)) in ground (arith, rest)

pub total_held-update :
    (f : ℕ → Option Stream) (token : Address) (i n : ℕ) (o : Option Stream)
    → i < n
    → total_held (update f i o) token n + held_in token (f i)
      ≡ total_held f token n + held_in token o
unfolding total_held
total_held-update f token i zero o h = absurd (omega (arith, h))
total_held-update f token i (suc n) o h = elim (Bool-cases (i == n)) [
  | inl e ↦
      let same : i ≡ n = ground arith in
      let rest = total_held-above f token i n o (omega (arith, same)) in ground (arith, rest, same)
  | inr e ↦ let rest = total_held-update f token i n o (ground arith) in ground (arith, rest)
]

-- One stream holds at most what all do.
pub held-le-total :
    (f : ℕ → Option Stream) (token : Address) (i n : ℕ)
    → i < n
    → held_in token (f i) ≤ total_held f token n
held-le-total f token i n h =
    let taken = total_held-update f token i n none h in omega (arith, taken)
