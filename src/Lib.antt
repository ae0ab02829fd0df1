-- ===== src/Lib.antt =====
-- The Fluxora stream contract, which pays deposits out over time, and the factory contract, whose
-- policy creations can be made to follow, as a model of their Rust source (contracts/stream/src
-- and contracts/factory/src); and the provenance tool, which gates a release
-- (tools/provenance/src).
--
-- How the parts interact. An entry point that changes a stream (lib.rs) loads it, checks who
-- signed, computes a changed stream with the accrual arithmetic, moves tokens, records what the
-- pool of each token should hold, saves the stream and publishes an event. Here these steps are
-- calls: functions from a world to a result with the next world. An error or a trap carries no
-- world, since the host rolls every change back.
--
-- Files:
--   Base, Base/*         the native numbers, integers, checked arithmetic of i128 and u64
--   Errors, Types        error.rs and types.rs: the errors with their codes, the records and enums
--   Accrual              accrual.rs: stream_time, cliff_reached, vested, withdrawable, refundable,
--                        liability. Accrual/Curves gives the curves without the checks of range,
--                        Accrual/Bounds and Accrual/FrontLoaded the laws.
--   Events, Publish      events.rs: the payloads, and the functions that publish them
--   Host                 what the host gives a call: time, signatures, storage, tokens, rent
--   Storage              storage.rs: the entries of streams, pool, delegates and halt, and the rent
--                        targets. Storage/RoundTrip relates what is written and what is read.
--   Transition/*         the checks and the changed stream of the entry points, as functions on
--                        streams: Create, TopUp, Withdraw, Cancel, Pause, Transfer. Their children
--                        hold the laws. Transition/Invariant says when a stream is well-formed.
--   Contract/*           the entry points themselves, under their names, with the checks they share
--                        (Guards) and the token calls (Payments). Delegates/Permission says whom
--                        the delegated ones serve. Triple, Frame and Keeps carry
--                        the invariant through calls; Keeps/Reachable is about sequences of calls.
--   Contract/Book        the streams, the recorded pool balances and the next id, as they are seen
--                        from outside the storage
--   Contract/Pool/*      the recorded pool balances against what the streams hold: Posts (writes of
--                        the book), Moves (transitions), Settles and Keeps (entry points),
--                        Batches/*, Deployed (sequences of calls), Solvent, Refinement
--   Factory, Factory/*   contracts/factory/src/lib.rs: the setters and views under their names, with
--                        Calls (its storage, events and rent), Policy (sequences of its calls) and
--                        Enforcement (create_stream_via_factory over its views)
--   Provenance           tools/provenance/src/lib.rs: the records, the disk, the programs it calls.
--                        Build is the discovery of the build's inputs, Gate is generate and verify,
--                        Acceptance, Artifacts, Writing and RoundTrip are about the gate.
--                        Calendar is civil_from_days and format_unix, Gregorian the calendar by
--                        its rule for the next day, Dates the comparison of the two.
--   Tests, Tests/*       concrete runs
--
-- State. `World` has one field for each storage key that the source uses, the state of the token
-- contracts, and the events and rent requests so far. A handler that the source writes in one
-- piece is split: what it computes from a stream is in Transition, the order of effects in
-- Contract.
--
-- Numbers. u64 and u32 are natural numbers; where the source adds, multiplies or casts, the model
-- has the check, the saturation or the panic that the source has, except that the unchecked
-- products, quotients and differences of accrual.rs are those of the integers. i128 is an integer
-- with the checked operations of the source. Subtraction of times is the source's saturating_sub,
-- or is guarded there.
--
-- Bounds. Every loop is over the list it is given; only `digits` of the provenance tool, which
-- prints a decimal number, takes a count of steps, 20, and a number of 64 bits has 20 digits at
-- most. A batch has at most 16 members, which the guards test.
--
-- Parameters. The token contracts (`Token`) and the views of a factory (`Host.Factory`) are
-- arbitrary functions; Factory/Enforcement takes the views of the factory contract for them.
-- Addresses and token identifiers are natural numbers, since the contract only compares them. A
-- call of another contract does not re-enter this one. Of the provenance tool the hash, the codecs
-- of JSON and TOML, the standard library's treatment of paths and the programs that are started
-- are a `Machine`; its maps are association lists, and an error does not carry a library's error.
-- A `Disk` says what each file holds, text or other bytes, and which reads, writes and renames
-- fail; a failure carries no disk, and names of files are Unicode. A git that cannot be run and
-- one whose answer is not UTF-8 are one error.
--
-- Not modelled: the archival probe, the command line of the provenance tool and how it starts
-- programs and what it prints, protocol_limits.rs (constants for tests), the types StreamShares
-- and ShareEntry (which no operation uses), and how the host encodes, archives and charges for
-- data.
pub mod Base
pub mod Errors
pub mod Types
pub mod Accrual
pub mod Events
pub mod Host
pub mod Publish
pub mod Storage
pub mod Transition
pub mod Contract
pub mod Factory
pub mod Provenance
pub mod Tests
