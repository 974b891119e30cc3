-- ===== src/Orders/Progress.antt =====
-- internal/order/service/order_service.go: `CancelOrder` and `expireOne` when their calls work.
use rallya.Common.{
  ℕ, ◌-◌, ◌≤◌, ◌<◌, ◌≡◌, true, false, ◌||◌, none, some, List, [], ◌∷◌, ◌++◌, arith, ok, refl,
  String, Option, str_eq_refl, ◌==◌, Option-cases, inl, inr, update_first, if◌then◌else◌,
}
use rallya.Model.Order.{Order, OrderStatus, cancelled, expired}
use rallya.Model.Ticket.{TicketType}
use rallya.Model.Audit.{Entry}
use rallya.Store.{Db, Env, emit, update_order as call_update_order, get_order as call_get_order}
use rallya.Ticketing.Rows.{find_type, has_id as has_type_id, set_sold}
use rallya.Ticketing.Stock.{StockCalls, release_tx-granted}
use rallya.Orders.Types.{to_order, order_entry}
use rallya.Orders.Rows.{has_id, find_order, same_session, update_order_row}
use rallya.Orders.Reads.{manageable}
use rallya.Orders.Cancel.{cancel_prepare, cancel_commit, cancel_order}
use rallya.Orders.Sweep.{expire_one}
use rallya.Orders.Accounts.{is_live, weight, held, Balanced}

-- A stored order is part of what its ticket type's orders hold.
weight-le-held :
    (j id : ℕ) {o : Order} (os : List Order) → find_order id os ≡ some o → weight j o ≤ held j os
weight-le-held j id {o = o} [] h = cc
weight-le-held j id {o = o} (x ∷ os) h = ground (arith, weight-le-held j id {o = o} os)

-- Under balanced books a live order's type exists and has sold at least what the order holds.
pub release_covered :
    (o : Order) (db : Db)
    → Balanced db
    → find_order o.id db.orders ≡ some o
    → is_live o.status ≡ true
    → 0 < o.quantity
    → (t : TicketType) × (find_type o.ticket_type_id db.types ≡ some t)
      × (o.quantity ≤ t.quantity_sold)
release_covered o db balanced found live positive =
    elim (Option-cases (find_type o.ticket_type_id db.types)) [
      | inl missing ↦ absurd (
          ground (
            arith,
            balanced o.ticket_type_id,
            weight-le-held o.ticket_type_id o.id {o = o} db.orders found,
          ))
      | inr (t, e) ↦ (
        t,
        e,
        ground (
          arith,
          balanced o.ticket_type_id,
          weight-le-held o.ticket_type_id o.id {o = o} db.orders found,
        ),
      )
    ]

cancel_prepare-granted :
    (env : Env) (caller : ℕ) (o : Order) (org : ℕ) (db : Db)
    → env.fault call_get_order ≡ false
    → find_order o.id db.orders ≡ some o
    → is_live o.status ≡ true
    → ((o.user_id == caller) || manageable env caller o) ≡ true
    → env.org_of o.event_id ≡ some org
    → cancel_prepare env caller o.id db ≡ ok ((o, org), db)
unfolding cancel_prepare
cancel_prepare-granted env caller o org db reads found live permitted known = ground arith

-- The database calls of a cancellation and of an expiry succeed.
abbrev pub CommitCalls : Env → Type 0
CommitCalls env =
    StockCalls env
    × (env.fault call_update_order ≡ false)
    × (env.fault (emit "order.cancelled") ≡ false)
    × (env.fault (emit "order.expired") ≡ false)

abbrev pub logged : Env → Entry → List Entry → List Entry
logged env e log = if env.audited then log ++ e ∷ [] else log

-- The database after the transaction that ends the order `o` in `status`.
abbrev pub ended : Env → Entry → OrderStatus → Order → TicketType → Db → Db
ended env e status o t db = record db {
  types =
      update_first (has_type_id o.ticket_type_id) (set_sold (t.quantity_sold - o.quantity))
        db.types;
  orders = update_first (has_id o.id) (λ _. record o { status = status }) db.orders;
  audits = logged env e db.audits;
}

same_session_refl : (s : Option String) → same_session s s ≡ true
same_session_refl none = refl
same_session_refl (some s) = str_eq_refl s

-- An order that is stored with its session can be saved.
update_order_row-granted :
    (env : Env) (o : Order) (p : Order) (db : Db)
    → env.fault call_update_order ≡ false
    → find_order o.id db.orders ≡ some p
    → p.stripe_session_id ≡ o.stripe_session_id
    → update_order_row env o db
      ≡ ok (tt, record db { orders = update_first (has_id o.id) (λ _. o) db.orders })
unfolding update_order_row
update_order_row-granted env o p db works stored same =
    rw (works, stored, same, same_session_refl o.stripe_session_id) refl

pub cancel_commit-granted :
    (env : Env) (caller : ℕ) (o : Order) (org : ℕ) (db : Db) {t : TicketType} {p : Order}
    → CommitCalls env
    → find_order o.id db.orders ≡ some p
    → p.stripe_session_id ≡ o.stripe_session_id
    → find_type o.ticket_type_id db.types ≡ some t
    → 0 < o.quantity
    → o.quantity ≤ t.quantity_sold
    → cancel_commit env caller o org db
      ≡ ok (
        to_order (record o { status = cancelled }),
        ended env (order_entry org (some caller) "order.cancelled" o.id) cancelled o t db,
      )
unfolding cancel_commit
cancel_commit-granted env caller o org db {t = t} {p = p} calls stored same e pos fits =
    let g = release_tx-granted env o.ticket_type_id o.quantity db {t = t} calls.0 e pos fits in
    let left =
      update_first (has_type_id o.ticket_type_id) (set_sold (t.quantity_sold - o.quantity))
        db.types in
    let (stock, works, logs, logs') = calls in
    let u =
      update_order_row-granted env (record o { status = cancelled }) p (record db { types = left })
        works stored same in
    ground arith

pub expire_one-granted :
    (env : Env) (o : Order) (org : ℕ) (db : Db) {t : TicketType} {p : Order}
    → CommitCalls env
    → find_order o.id db.orders ≡ some p
    → p.stripe_session_id ≡ o.stripe_session_id
    → env.org_of o.event_id ≡ some org
    → find_type o.ticket_type_id db.types ≡ some t
    → 0 < o.quantity
    → o.quantity ≤ t.quantity_sold
    → expire_one env o db
      ≡ ok (tt, ended env (order_entry org none "order.expired" o.id) expired o t db)
unfolding expire_one
expire_one-granted env o org db {t = t} {p = p} calls stored same known e pos fits =
    let g = release_tx-granted env o.ticket_type_id o.quantity db {t = t} calls.0 e pos fits in
    let left =
      update_first (has_type_id o.ticket_type_id) (set_sold (t.quantity_sold - o.quantity))
        db.types in
    let (stock, works, logs, logs') = calls in
    let u =
      update_order_row-granted env (record o { status = expired }) p (record db { types = left })
        works stored same in
    ground arith

-- Cancelling a live order of positive quantity succeeds if the books balance, the caller is its
-- owner or may manage it, its organization is known, and no database call fails: the inventory
-- cannot refuse the release. The order's row is then cancelled, its units are released, and the
-- cancellation is logged if an audit emitter is wired.
pub cancel_order-succeeds :
    (env : Env) (caller : ℕ) (o : Order) (org : ℕ) (db : Db)
    → CommitCalls env
    → env.fault call_get_order ≡ false
    → Balanced db
    → find_order o.id db.orders ≡ some o
    → 0 < o.quantity
    → is_live o.status ≡ true
    → ((o.user_id == caller) || manageable env caller o) ≡ true
    → env.org_of o.event_id ≡ some org
    → (t : TicketType) × (find_type o.ticket_type_id db.types ≡ some t)
      × (o.quantity ≤ t.quantity_sold)
      × (cancel_order env caller o.id db
          ≡ ok (
            to_order (record o { status = cancelled }),
            ended env (order_entry org (some caller) "order.cancelled" o.id) cancelled o t db,
          ))
unfolding cancel_order
cancel_order-succeeds env caller o org db calls reads balanced found positive live permitted known =
    let (t, e, covered) = release_covered o db balanced found live positive in
    let prepared : cancel_prepare env caller o.id db ≡ ok ((o, org), db) =
      cancel_prepare-granted env caller o org db reads found live permitted known in
    (
      t,
      e,
      covered,
      rw prepared (cancel_commit-granted env caller o org db calls found refl e positive covered),
    )
