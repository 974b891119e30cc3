-- ===== src/Kits.antt =====
-- internal/kit: kit types of an event and their handouts to attendees.
pub mod Types
pub mod Rows
pub mod Manage
pub mod Handout
pub mod Steps
pub mod Covered
pub mod Replays
pub mod Inside
pub mod Guarded
pub mod Days
pub mod Moves
pub mod Edits
