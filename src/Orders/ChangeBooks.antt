-- ===== src/Orders/ChangeBooks.antt =====
-- internal/order/service/order_service.go: the books over `MarkPaid`, `SetStripeSession`,
-- `CancelOrder` and `expireOne`.
use rallya.Common.{
  ℕ, ◌≡◌, String, true, some, List, [], ◌∷◌, arith, ok, map_err, or_raise, bind-eq-ok,
  map_err-eq-ok, Option-cases, inl, inr, update_first,
}
use rallya.Common.Int.{pos}
use rallya.Model.Order.{Order, cancelled, expired}
use rallya.Store.{Db, Env}
use rallya.Ticketing.Inventory.{release_tx}
use rallya.Orders.Types.{OrderView, call_err, morph_release_err, internal}
use rallya.Orders.Rows.{find_order, update_order_row, has_id}
use rallya.Orders.Payment.{mark_paid, set_stripe_session, paid}
use rallya.Orders.Cancel.{cancel_prepare, cancel_commit, cancel_order}
use rallya.Orders.Sweep.{expire_one}
use rallya.Orders.Accounts.{is_live, held-update, Balanced, release_tx-sold}

pub find_order-id : (id : ℕ) {o : Order} (os : List Order) → find_order id os ≡ some o → o.id ≡ id
find_order-id id {o = o} [] h = cc
find_order-id id {o = o} (x ∷ os) h = ground (arith, find_order-id id {o = o} os)

pub update_order_row-eq-ok :
    (env : Env) (p : Order) (db : Db) {r : Unit {0} × Db}
    → update_order_row env p db ≡ ok r
    → r.1 ≡ record db { orders = update_first (has_id p.id) (λ _. p) db.orders }
unfolding update_order_row
update_order_row-eq-ok env p db h = ground arith

-- If the sold count of every ticket type is what its live orders hold, it still is after a payment
-- that is marked.
pub mark_paid-Balanced :
    (env : Env) (id : ℕ) (session intent : String) (db : Db) {r : OrderView × Db}
    → mark_paid env id session intent db ≡ ok r
    → Balanced db
    → Balanced r.1
unfolding mark_paid
mark_paid-Balanced env id session intent db h balanced j =
    elim (Option-cases (find_order id db.orders)) [
      | inl missing ↦ ground arith
      | inr (o, found) ↦ ground (
        arith,
        balanced j,
        find_order-id id {o = o} db.orders,
        held-update j (paid env session intent o) {o = o} db.orders,
      )
    ]

-- If the sold count of every ticket type is what its live orders hold, it still is after a
-- checkout session is recorded on an order.
pub set_stripe_session-Balanced :
    (env : Env) (id : ℕ) (session : String) (db : Db) {r : Unit {0} × Db}
    → set_stripe_session env id session db ≡ ok r
    → Balanced db
    → Balanced r.1
unfolding set_stripe_session
set_stripe_session-Balanced env id session db h balanced j =
    elim (Option-cases (find_order id db.orders)) [
      | inl missing ↦ ground arith
      | inr (o, found) ↦ ground (
        arith,
        balanced j,
        find_order-id id {o = o} db.orders,
        held-update j (record o { stripe_session_id = some session }) {o = o} db.orders,
      )
    ]

-- The transaction of a cancellation, on an order that is still as it was read.
pub cancel_commit-Balanced :
    (env : Env) (caller : ℕ) (o : Order) (org : ℕ) (db : Db) {r : OrderView × Db}
    → find_order o.id db.orders ≡ some o
    → is_live o.status ≡ true
    → cancel_commit env caller o org db ≡ ok r
    → Balanced db
    → Balanced r.1
unfolding cancel_commit
cancel_commit-Balanced env caller o org db found live h balanced j =
    let (a, e, k) =
      bind-eq-ok (map_err morph_release_err (release_tx env o.ticket_type_id (pos o.quantity)) db) _
        h in
    let (b, e', k') =
      bind-eq-ok (map_err call_err (update_order_row env (record o { status = cancelled })) a.1) _
        k in
    ground (
      arith,
      balanced j,
      release_tx-sold env o.ticket_type_id j (pos o.quantity) db
          (map_err-eq-ok morph_release_err (release_tx env o.ticket_type_id (pos o.quantity)) db e),
      update_order_row-eq-ok env (record o { status = cancelled }) a.1
          (map_err-eq-ok call_err (update_order_row env (record o { status = cancelled })) a.1 e'),
      held-update j (record o { status = cancelled }) {o = o} db.orders found,
    )

-- What a permitted cancellation acts on: the order as it is stored, live and untouched.
pub cancel_prepare-eq-ok :
    (env : Env) (caller id : ℕ) (db : Db) {r : (Order × ℕ) × Db}
    → cancel_prepare env caller id db ≡ ok r
    → (r.1 ≡ db) × (find_order r.0.0.id db.orders ≡ some r.0.0) × (is_live r.0.0.status ≡ true)
unfolding cancel_prepare
cancel_prepare-eq-ok env caller id db h = elim (Option-cases (find_order id db.orders)) [
  | inl missing ↦ ground arith
  | inr (o, found) ↦ ground (arith, find_order-id id {o = o} db.orders)
]

-- If the sold count of every ticket type is what its live orders hold, it still is after a
-- cancellation that succeeds.
pub cancel_order-Balanced :
    (env : Env) (caller id : ℕ) (db : Db) {r : OrderView × Db}
    → cancel_order env caller id db ≡ ok r
    → Balanced db
    → Balanced r.1
unfolding cancel_order
cancel_order-Balanced env caller id db h balanced =
    let (plan, e, k) = bind-eq-ok (cancel_prepare env caller id db) _ h in
    let (same, found, live) = cancel_prepare-eq-ok env caller id db e in
    cancel_commit-Balanced env caller plan.0.0 plan.0.1 plan.1 (rw same found) live k
      (rw same balanced)

-- The transaction of an expiry, on an order that is still as it was read.
pub expire_one-Balanced :
    (env : Env) (o : Order) (db : Db) {r : Unit {0} × Db}
    → find_order o.id db.orders ≡ some o
    → is_live o.status ≡ true
    → expire_one env o db ≡ ok r
    → Balanced db
    → Balanced r.1
unfolding expire_one
expire_one-Balanced env o db found live h balanced j =
    let (org, e0, k0) = bind-eq-ok (or_raise (env.org_of o.event_id) internal db) _ h in
    let (a, e, k) =
      bind-eq-ok (map_err (λ _. internal) (release_tx env o.ticket_type_id (pos o.quantity)) org.1)
        _ k0 in
    let (b, e', k') =
      bind-eq-ok (map_err call_err (update_order_row env (record o { status = expired })) a.1) _
        k in
    ground (
      arith,
      balanced j,
      release_tx-sold env o.ticket_type_id j (pos o.quantity) org.1 (
          map_err-eq-ok (λ _. internal) (release_tx env o.ticket_type_id (pos o.quantity)) org.1 e),
      update_order_row-eq-ok env (record o { status = expired }) a.1
          (map_err-eq-ok call_err (update_order_row env (record o { status = expired })) a.1 e'),
      held-update j (record o { status = expired }) {o = o} db.orders found,
    )
