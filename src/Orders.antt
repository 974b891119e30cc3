-- ===== src/Orders.antt =====
-- The order domain (internal/order): claims against ticket types, their payment, cancellation and
-- expiry.
pub mod Types
pub mod Rows
pub mod Create
pub mod Reads
pub mod Payment
pub mod Cancel
pub mod Sweep
pub mod Accounts
pub mod CreateBooks
pub mod ChangeBooks
pub mod SweepBooks
pub mod Progress
pub mod Replays
pub mod Races
pub mod NoOversell
pub mod DoorRecords
pub mod SweepProgress
