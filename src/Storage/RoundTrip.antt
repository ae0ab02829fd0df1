-- ===== src/Storage/RoundTrip.antt =====
-- Reading the entries of a stream after they are written.
use fluxora_contracts.Base.{ℕ, ◌≡◌, inl, inr, if◌then◌else◌, ◌==◌, Bool-cases, some, arith}
use fluxora_contracts.Types.{Stream, from_stream, into_stream}
use fluxora_contracts.Host.{World}
use fluxora_contracts.Storage.{
  find_stream, write_entries, from_entries, stored_curve, stored_metadata,
}

rebuild :
    (s : Stream) → from_entries (some (from_stream s)) (stored_curve s) (stored_metadata s) ≡ some s
unfolding from_stream into_stream
rebuild s = ground arith

-- After the entries of a stream are written under an id, that id reads back as exactly that stream,
-- for every curve, cliff mode and reference, and every other id reads as before.
pub find_stream-write_entries :
    {L : Type 0} (w : World L) (i j : ℕ) (s : Stream)
    → find_stream (write_entries i s w) j ≡ (if i == j then some s else find_stream w j)
unfolding find_stream write_entries
find_stream-write_entries w i j s = elim (Bool-cases (i == j)) [
  | inl e ↦ ground (arith, rebuild s)
  | inr e ↦ ground arith
]
