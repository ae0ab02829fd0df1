-- ===== src/Storage.antt =====
-- The storage layer of the stream contract (contracts/stream/src/storage.rs). A stream is kept as
-- its first-version record, with the curve and the metadata in entries of their own.
pub mod RoundTrip
use fluxora_contracts.Base.{
  ℕ, ◌+◌, ◌-◌, ◌*◌, ◌/◌, ℤ, pos, leb, ltb, ◌==◌, if◌then◌else◌, Bool, not, ◌||◌, Option, none, some,
  u32_max, u64_max, saturating_add_u64, saturating_mul_u64, checked_add_u64, checked_add,
  checked_sub,
}
use fluxora_contracts.Errors.{stream_not_found, stream_id_exhausted, overflow}
use fluxora_contracts.Types.{
  Address, Stream, StreamRecord, StreamMetadata, ReleaseCurve, linear, DelegateGrant, is_linear,
  is_default, is_some, from_stream, into_stream,
}
use fluxora_contracts.Host.{
  Env, World, Call, pure, gets, ok_or, unwrap, modify, when, fail, rent, update, instance_rent,
  stream_rent, curve_rent, metadata_rent, delegate_rent, ◌>>=◌, ◌>>◌,
}

abbrev pub seconds_per_ledger : ℕ
seconds_per_ledger = 5

abbrev pub ttl_safety_margin_percent : ℕ
ttl_safety_margin_percent = 20

abbrev pub ttl_buffer_seconds : ℕ
ttl_buffer_seconds = 30 * 24 * 60 * 60

abbrev pub min_stream_ttl_ledgers : ℕ
min_stream_ttl_ledgers =
    ttl_buffer_seconds * (100 + ttl_safety_margin_percent) / (seconds_per_ledger * 100)

unfoldable pub seconds_to_ledgers : ℕ → ℕ
unfolding saturating_add_u64 saturating_mul_u64
seconds_to_ledgers seconds =
    let inflated = saturating_mul_u64 seconds (100 + ttl_safety_margin_percent) / 100 in
    let ledgers = saturating_add_u64 inflated (seconds_per_ledger - 1) / seconds_per_ledger in
    if ltb u32_max ledgers then u32_max else ledgers

abbrev current_pause : Option ℕ → ℕ → ℕ
current_pause (some paused_at) now = now - paused_at
current_pause none now = 0

abbrev max_of : ℕ → ℕ → ℕ
max_of a b = if leb a b then b else a

abbrev min_of : ℕ → ℕ → ℕ
min_of a b = if leb a b then a else b

abbrev pub get_or {ℓ} : {A : Type ℓ} → A → Option A → A
get_or d none = d
get_or d (some a) = a

-- The test by which a stream has an entry for its metadata.
abbrev has_metadata : Stream → Bool
has_metadata s = not (is_default s.cliff_mode) || is_some s.reference

abbrev with_metadata : Option StreamMetadata → Stream → Stream
with_metadata none s = s
with_metadata (some m) s = record s { cliff_mode = m.cliff_mode; reference = m.reference }

abbrev from_entries :
    Option StreamRecord → Option ReleaseCurve → Option StreamMetadata → Option Stream
from_entries none curve metadata = none
from_entries (some r) curve metadata =
    some (with_metadata metadata (into_stream r (get_or linear curve)))

abbrev stored_curve : Stream → Option ReleaseCurve
stored_curve s = if is_linear s.curve then none else some s.curve

abbrev stored_metadata : Stream → Option StreamMetadata
stored_metadata s =
    if has_metadata s
    then some record { cliff_mode = s.cliff_mode; reference = s.reference }
    else none

module _ {L : Type 0} where
  unfoldable pub ttl_target_ledgers : Env L → Stream → ℕ
  unfolding saturating_add_u64 seconds_to_ledgers
  ttl_target_ledgers e s =
      let effective_end =
        saturating_add_u64 (saturating_add_u64 s.end_time s.paused_total)
          (current_pause s.paused_at e.now) in
      let remaining = effective_end - e.now in
      let target = seconds_to_ledgers (saturating_add_u64 remaining ttl_buffer_seconds) in
      min_of (max_of target min_stream_ttl_ledgers) e.max_ttl

  unfoldable pub extend_instance : Env L → Call L Unit
  unfolding rent
  extend_instance e = rent (instance_rent e.max_ttl)

  unfoldable pub extend_stream : Env L → ℕ → Stream → Call L Unit
  unfolding rent
  extend_stream e stream_id s = do
    rent (stream_rent stream_id (ttl_target_ledgers e s))
    when (not (is_linear s.curve)) (rent (curve_rent stream_id (ttl_target_ledgers e s)))
    when (has_metadata s) (rent (metadata_rent stream_id (ttl_target_ledgers e s)))

  -- The stream that the entries of an id describe.
  unfoldable pub find_stream : World L → ℕ → Option Stream
  unfolding into_stream
  find_stream w stream_id =
      from_entries (w.streams stream_id) (w.curves stream_id) (w.metadata stream_id)

  unfoldable pub read_stream : ℕ → Call L Stream
  read_stream stream_id = do
    found ← gets (λ w. find_stream w stream_id)
    ok_or found stream_not_found

  unfoldable pub peek_stream : ℕ → Call L Stream
  unfolding read_stream
  peek_stream stream_id = read_stream stream_id

  unfoldable pub load_stream : Env L → ℕ → Call L Stream
  unfolding read_stream
  load_stream e stream_id = do s ← read_stream stream_id; extend_stream e stream_id s; pure s

  -- The three entries of a stream, written or removed.
  unfoldable pub write_entries : ℕ → Stream → World L → World L
  unfolding from_stream
  write_entries stream_id s w = record w {
    streams = update w.streams stream_id (some (from_stream s));
    curves = update w.curves stream_id (stored_curve s);
    metadata = update w.metadata stream_id (stored_metadata s);
  }

  -- A new stream advances both counters; the counter panics where it would wrap.
  unfoldable pub count_stream : Env L → Call L Unit
  unfolding checked_add_u64 extend_instance
  count_stream e = do
    current ← gets (λ w. get_or 0 w.next_stream_id)
    next ← unwrap (checked_add_u64 current 1)
    modify (λ w. record w { next_stream_id = some next; stream_count = some next })
    extend_instance e

  unfoldable pub save_stream : Env L → ℕ → Stream → Call L Unit
  save_stream e stream_id s = do
    is_new ← gets (λ w. not (is_some (w.streams stream_id)))
    modify (write_entries stream_id s)
    when is_new (count_stream e)
    extend_stream e stream_id s

  unfoldable pub next_stream_id : Env L → Call L ℕ
  unfolding extend_instance
  next_stream_id e = do
    current ← gets (λ w. get_or 0 w.next_stream_id)
    if current == u64_max then fail stream_id_exhausted else (do extend_instance e; pure current)

  unfoldable pub stream_exists : World L → ℕ → Bool
  stream_exists w stream_id = is_some (w.streams stream_id)

  unfoldable pub stream_count : World L → ℕ
  stream_count w = get_or (get_or 0 w.next_stream_id) w.stream_count

  unfoldable pub pooled_balance : World L → Address → ℤ
  pooled_balance w token = get_or (pos 0) (w.pooled token)

  unfoldable pub set_pooled_balance : Env L → Address → ℤ → Call L Unit
  unfolding extend_instance
  set_pooled_balance e token amount = do
    modify (λ w. record w { pooled = update w.pooled token (some amount) })
    extend_instance e

  unfoldable pub credit_pool : Env L → Address → ℤ → Call L Unit
  unfolding pooled_balance set_pooled_balance
  credit_pool e token amount = do
    current ← gets (λ w. pooled_balance w token)
    next ← ok_or (checked_add current amount) overflow
    set_pooled_balance e token next

  unfoldable pub debit_pool : Env L → Address → ℤ → Call L Unit
  unfolding pooled_balance set_pooled_balance
  debit_pool e token amount = do
    current ← gets (λ w. pooled_balance w token)
    next ← ok_or (checked_sub current amount) overflow
    set_pooled_balance e token next

  abbrev write_delegate : ℕ → Address → Option DelegateGrant → World L → World L
  write_delegate stream_id delegate grant w = record w {
    delegates =
        λ j. if stream_id == j then update (w.delegates j) delegate grant else w.delegates j;
  }

  unfoldable pub save_delegate : Env L → ℕ → Address → DelegateGrant → Call L Unit
  unfolding rent
  save_delegate e stream_id delegate grant = do
    modify (write_delegate stream_id delegate (some grant))
    found ← gets (λ w. find_stream w stream_id)
    s ← unwrap found
    rent (delegate_rent stream_id delegate (ttl_target_ledgers e s))

  unfoldable pub remove_delegate : ℕ → Address → Call L Unit
  remove_delegate stream_id delegate = do
    present ← gets (λ w. is_some (w.delegates stream_id delegate))
    when present (modify (write_delegate stream_id delegate none))

  unfoldable pub load_delegate : World L → ℕ → Address → Option DelegateGrant
  load_delegate w stream_id delegate = w.delegates stream_id delegate

  unfoldable pub set_halt_operator : Env L → Address → Call L Unit
  unfolding extend_instance
  set_halt_operator e operator = do
    modify (λ w. record w { operator = some operator })
    extend_instance e

  unfoldable pub is_halted : World L → Bool
  is_halted w = is_some w.halted_at

  unfoldable pub set_halt : Env L → Call L Unit
  unfolding extend_instance
  set_halt e = do modify (λ w. record w { halted_at = some e.now }); extend_instance e

  unfoldable pub clear_halt : Env L → Call L Unit
  unfolding extend_instance
  clear_halt e = do modify (λ w. record w { halted_at = none }); extend_instance e
