-- ===== src/Ticketing.antt =====
-- The ticketing domain (internal/ticketing): ticket types, their availability, and the row-locked
-- inventory that the order domain claims through.
pub mod Types
pub mod Rows
pub mod Inventory
pub mod Admin
pub mod Stock
pub mod Bounds
pub mod Edits
pub mod Races
pub mod OnSale
