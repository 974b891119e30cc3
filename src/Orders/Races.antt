-- ===== src/Orders/Races.antt =====
-- internal/order/service/order_service.go: `CancelOrder` and `expireOne` read an order before their
-- transactions and do not read it again inside. Here another request comes in between.
use rallya.Common.{
  refl, ℕ, ◌+◌, ◌-◌, ◌*◌, ◌≤◌, ◌<◌, ◌≡◌, true, none, some, arith, ok, ap, ◌∙◌, String,
}
use rallya.Model.Order.{Order, cancelled, expired, is_confirmed}
use rallya.Model.Ticket.{TicketType}
use rallya.Store.{Db, Env}
use rallya.Ticketing.Rows.{find_type, set_sold}
use rallya.Ticketing.Stock.{find_type-set_sold, sold_of, sold_of-set_sold}
use rallya.Orders.Types.{OrderView, to_order, order_entry}
use rallya.Orders.Rows.{find_order}
use rallya.Orders.Cancel.{cancel_commit}
use rallya.Orders.Sweep.{expire_one}
use rallya.Orders.Accounts.{is_live, held, held-update, Balanced}
use rallya.Orders.Progress.{CommitCalls, ended, cancel_commit-granted, expire_one-granted}
use rallya.Orders.Replays.{find-update, mark_paid-stored}
use rallya.Orders.Payment.{mark_paid}
use rallya.Orders.SweepBooks.{expire_one-orders}

-- A sweep that selected a live order before its cancellation commits releases its units a second
-- time. If the calls of both transactions work, the organization of the order's event is known to
-- the sweep, the order is stored with a positive quantity, its ticket type is stored with at least
-- twice that quantity sold, and the books balance before, both transactions succeed, and the sold
-- count ends below what the live orders hold, by the order's quantity.
pub stale_expiry-releases_twice :
    (env env' : Env) (caller org : ℕ) (o : Order) (db : Db) {t : TicketType}
    → CommitCalls env
    → CommitCalls env'
    → env'.org_of o.event_id ≡ some org
    → find_type o.ticket_type_id db.types ≡ some t
    → find_order o.id db.orders ≡ some o
    → is_live o.status ≡ true
    → 0 < o.quantity
    → 2 * o.quantity ≤ t.quantity_sold
    → Balanced db
    → (v : OrderView) × (db1 : Db) × (db2 : Db) × (cancel_commit env caller o org db ≡ ok (v, db1))
      × (expire_one env' o db1 ≡ ok (tt, db2))
      × (sold_of o.ticket_type_id db2.types + o.quantity ≡ held o.ticket_type_id db2.orders)
stale_expiry-releases_twice env env' caller org o db {t = t} calls calls' known e found live
      positive twice balanced =
    let db1 = ended env (order_entry org (some caller) "order.cancelled" o.id) cancelled o t db in
    let left = t.quantity_sold - o.quantity in
    let t1 = set_sold left t in
    let e1 = find_type-set_sold o.ticket_type_id left {t = t} db.types e in
    let o1 = find-update (record o { status = cancelled }) {o = o} db.orders found in
    (
      to_order (record o { status = cancelled }),
      db1,
      ended env' (order_entry org none "order.expired" o.id) expired o t1 db1,
      cancel_commit-granted env caller o org db {t = t} calls found refl e positive (omega arith),
      expire_one-granted env' o org db1 {t = t1} calls' o1 refl known e1 positive (omega arith),
      ground (
        arith,
        balanced o.ticket_type_id,
        sold_of-set_sold o.ticket_type_id o.ticket_type_id left {t = t} db.types,
        sold_of-set_sold o.ticket_type_id o.ticket_type_id (left - o.quantity) {t = t1} db1.types,
        held-update o.ticket_type_id (record o { status = cancelled }) {o = o} db.orders,
        held-update o.ticket_type_id (record o { status = expired })
            {o = record o { status = cancelled }} db1.orders,
      ),
    )

-- A sweep that selected an order before its payment was recorded overwrites the paid row: once the
-- payment and then the expiry have succeeded, the row is the unpaid one that the sweep had read,
-- marked expired.
pub stale_expiry-erases_payment :
    (env env' : Env) (session intent : String) (o : Order) (db : Db) {r : OrderView × Db}
    {r' : Unit {0} × Db}
    → find_order o.id db.orders ≡ some o
    → mark_paid env o.id session intent db ≡ ok r
    → expire_one env' o r.1 ≡ ok r'
    → (is_confirmed r.0.status ≡ true)
      × (find_order o.id r'.1.orders ≡ some (record o { status = expired }))
stale_expiry-erases_payment env env' session intent o db {r = r} found h h' =
    let (p, stored, confirmed, view) = mark_paid-stored env o.id session intent db h in
    (
      ground arith,
      ap (find_order o.id) (expire_one-orders env' o r.1 h')
          ∙ find-update (record o { status = expired }) {o = p} r.1.orders stored,
    )
