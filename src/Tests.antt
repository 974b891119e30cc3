-- ===== src/Tests.antt =====
-- The theorems at concrete inputs: a small world (`Tests/World`), and runs of the operations on it.
mod World
mod OrderRuns
mod StockRuns
mod DoorRuns
mod BillingRuns
mod KitRuns
mod OrgRuns
mod EventRuns
