-- ===== src/Attendees.antt =====
-- The attendee domain (internal/attendee): door records, one per ticket unit, and their status.
pub mod Types
pub mod Rows
pub mod Payload
pub mod Mint
pub mod Door
pub mod Roster
pub mod Frame
pub mod Stamps
pub mod Tokens
pub mod Twice
