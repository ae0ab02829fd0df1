-- ===== src/Contract.antt =====
-- The entry points of the stream contract (contracts/stream/src/lib.rs), one module for each group.
-- `Guards` and `Payments` hold what they share.
pub mod Inversion
pub mod Triple
pub mod Book
pub mod Pool
pub mod Frame
pub mod Keeps
pub mod Guards
pub mod Payments
pub mod Create
pub mod TopUp
pub mod Withdraw
pub mod Cancel
pub mod Pause
pub mod Transfer
pub mod Delegates
pub mod Views
pub mod Maintenance
pub mod Halt
