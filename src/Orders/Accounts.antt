-- ===== src/Orders/Accounts.antt =====
-- The books of the inventory: the sold count of every ticket type is the quantity that its live
-- orders hold.
use rallya.Common.{
  ℕ, ◌+◌, ◌-◌, ◌≡◌, Bool, true, false, some, List, [], ◌∷◌, arith, ◌==◌, ok, sum_of, update_first,
  if◌then◌else◌, Bool-cases, inl, inr,
}
use rallya.Common.Int.{ℤ, pos_part}
use rallya.Model.Order.{Order, OrderStatus, cancelled, expired}
use rallya.Store.{Db, Env}
use rallya.Ticketing.Inventory.{reserve_tx, release_tx}
use rallya.Ticketing.Stock.{sold_of, sold_of-set_sold, reserve_tx-eq-ok, release_tx-eq-ok}
use rallya.Orders.Rows.{has_id, find_order}

-- An order that still holds its units.
abbrev pub is_live : OrderStatus → Bool
is_live cancelled = false
is_live expired = false
is_live _ = true

-- What an order holds of a ticket type.
abbrev pub weight : ℕ → Order → ℕ
weight id o = if o.ticket_type_id == id then (if is_live o.status then o.quantity else 0) else 0

abbrev pub held : ℕ → List Order → ℕ
held id = sum_of (weight id)

abbrev pub Balanced : Db → Type 0
Balanced db = (id : ℕ) → sold_of id db.types ≡ held id db.orders

-- Overwriting the row that is found exchanges its weight.
pub held-update :
    (id : ℕ) (p : Order) {o : Order} (os : List Order)
    → find_order p.id os ≡ some o
    → held id (update_first (has_id p.id) (λ _. p) os) + weight id o ≡ held id os + weight id p
held-update id p {o = o} [] h = cc
held-update id p {o = o} (x ∷ os) h = elim (Bool-cases (x.id == p.id)) [
  | inl same ↦ rw same (ground arith)
  | inr other ↦ rw other (ground (arith, held-update id p {o = o} os))
]

-- A reservation raises the sold count of its type alone, and leaves the orders.
pub reserve_tx-sold :
    (env : Env) (id j : ℕ) (n : ℤ) (db : Db) {r : Unit {0} × Db}
    → reserve_tx env id n db ≡ ok r
    → (sold_of j r.1.types ≡ sold_of j db.types + (if id == j then pos_part n else 0))
      × (r.1.orders ≡ db.orders)
reserve_tx-sold env id j n db h =
    let (t, found, on, positive, fits, written) = reserve_tx-eq-ok env id n db h in
    ground (arith, sold_of-set_sold id j (t.quantity_sold + pos_part n) {t = t} db.types)

pub release_tx-sold :
    (env : Env) (id j : ℕ) (n : ℤ) (db : Db) {r : Unit {0} × Db}
    → release_tx env id n db ≡ ok r
    → (sold_of j r.1.types + (if id == j then pos_part n else 0) ≡ sold_of j db.types)
      × (r.1.orders ≡ db.orders)
release_tx-sold env id j n db h =
    let (t, found, positive, fits, written) = release_tx-eq-ok env id n db h in
    ground (arith, sold_of-set_sold id j (t.quantity_sold - pos_part n) {t = t} db.types)
