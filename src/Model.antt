-- ===== src/Model.antt =====
-- The persistent rows of the domains (internal/*/model) and the store that holds their tables.
-- The columns created_at and updated_at are left out: tables list rows in insertion order.
pub mod Ticket
pub mod Order
pub mod Attendee
pub mod Checkin
pub mod Kit
pub mod Audit
pub mod Subscription
pub mod Organization
pub mod Event
