-- ===== src/Lib.antt =====
-- A verification library for Rallya, the event platform's Go server: ticket inventory, orders, door
-- records, check-in, kits, organizations, events, subscriptions and rate limits.
--
-- How the parts interact. The order domain (internal/order) claims units of a ticket type through
-- the ticketing domain's in-transaction calls (internal/ticketing), asks the subscription domain
-- (internal/subscription) for the organization's limits, and mints a door record per unit through
-- the attendee domain (internal/attendee). The check-in domain (internal/checkin) verifies QR
-- payloads and flips door records through the attendee domain inside its own transactions, and asks
-- the kit domain before a revert. The kit domain (internal/kit) hands kits to attendees whom the
-- attendee domain says are checked in. The organization domain (internal/organization) keeps tenants,
-- their members, invites and custom roles, within the limits of the subscription. The event domain
-- (internal/event) keeps an organization's events, announces a published one to the members that the
-- organization domain names, and caches public payloads. Each mutation writes an audit entry in its
-- transaction.
--
-- Files.
--   Common      helpers: Boolean tests, tables as lists of rows, predicates on rows and distinct keys,
--               Go's 64-bit int, text, and the type of service methods
--   Model       the rows, one file per domain's model directory
--   Store       the shared database `Db`, a request's environment `Env`, and the calls that can fail
--   Ticketing   internal/ticketing: Rows (ticket_repository.go), Inventory (ReserveTx, ReleaseTx,
--               InspectType), Admin (the rest of ticket_service.go); Stock, Bounds, Edits, OnSale and
--               Races are proofs
--   Attendees   internal/attendee: Rows, Mint, Door, Roster, Payload (utils.go); Stamps, Tokens,
--               Twice and Frame are proofs
--   Subscription  Entitlements (subscription_repository.go, EntitlementFor), Webhook (webhook.go);
--               Grace and Failures are proofs
--   Orders      internal/order: Rows, Create, Reads, Payment, Cancel, Sweep; Accounts, CreateBooks,
--               ChangeBooks, SweepBooks, SweepProgress, NoOversell, DoorRecords, Progress, Replays
--               and Races are proofs
--   Checkin     Scan (checkin_service.go, checkin_repository.go); Trail, Repeats and Always are proofs
--   Kits        internal/kit: Rows (kit_repository.go), Manage and Handout (kit_service.go); Steps,
--               Covered, Inside, Guarded, Days, Replays, Moves and Edits are proofs
--   Orgs        internal/organization: Rows and RoleRows (org_repository.go), Access and Manage
--               (org_service.go), Members (member.go), Invites (invite.go), Roles (roles.go), Slugs
--               (utils.go); Lookups, Owners, Roster, Removal, Founding, Deleted, Joining,
--               Rejoining and History are proofs
--   Events      internal/event: Rows (event_repository.go), Create, Lifecycle, Gallery,
--               Serve and Lookups (event_service.go); Apart, Writes, Announced, Pictures, Caching
--               and Days are proofs
--   Ratelimit   Window (limiter.go, middleware.go); Budget is its proof
--   Tests       a concrete shop, and the theorems applied to it
--
-- How state and operations correspond to the code. A table is the list of its rows in insertion
-- order. A method whose writes are all in one transaction is a `Tx`: an error carries no state,
-- since it rolls back. A method with several transactions is a `Run`. Reads before a transaction
-- are on the same store, so a method runs alone; where other requests can come between a read and a
-- write, the two phases are definitions of their own (`cancel_prepare` and `cancel_commit`,
-- `expire_one`, `update_type_row`), and Orders/Races and Ticketing/Races interleave them. `Env`
-- holds what the code under these directories does not define: the clock, new identifiers, the
-- other domains behind their Go interfaces, SHA-256, HMAC, the UUID syntax, the case tables of
-- Unicode, and which database calls fail. A `Site` is the database with the cache of public event
-- payloads, which no transaction spans; the other domains still read events through `Env`. A sweep
-- has one environment per order, so that any of its transactions may fail.
--
-- Numbers. Identifiers are numbers for UUIDs. Quantities of a request are 64-bit integers (ℤ with the
-- wrap-around of `int64` at sums); in a row they are natural numbers within an INTEGER column
-- (migrations), which the repository's writes check. Times are in seconds, in the rate limiter in
-- nanoseconds; a day of grace is 86400 seconds. Loops run over lists or a given count, so no fuel is
-- needed.
--
-- Not modelled: HTTP handlers and routes, DTO timestamps, paged lists and searches, created_at and
-- updated_at, the width of text columns but those of organizations and events, audit diffs and
-- addresses, logging, and API keys. The filtered lists of events have no model, nor have the
-- payment dispatch, IAM, authentication and administration yet; the policies that the organization
-- domain derives for IAM after its commits are left out.
pub mod Common
pub mod Model
pub mod Store
pub mod Ticketing
pub mod Attendees
pub mod Subscription
pub mod Kits
pub mod Orgs
pub mod Events
pub mod Orders
pub mod Checkin
pub mod Ratelimit
pub mod Tests
