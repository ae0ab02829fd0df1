-- ===== src/Transition.antt =====
-- What the entry points do to one stream, without the host: the checks between loading a stream and
-- paying, and the stream that is saved. Each function is the pure part of the handler of its name in
-- contracts/stream/src/lib.rs, in the handler's order; `Contract` has the handlers.
pub mod Create
pub mod TopUp
pub mod Withdraw
pub mod Cancel
pub mod Pause
pub mod Transfer
pub mod Invariant
