-- ===== src/Orders/SweepBooks.antt =====
-- internal/order/service/order_service.go: the books over `SweepExpired`.
use rallya.Common.{
  ℕ, ◌≡◌, refl, true, false, ◌==◌, some, List, [], ◌∷◌, arith, ok, err, Result, map_err, bind-eq-ok,
  map_err-eq-ok, or_raise, All, All-zip, All-take, All-filter, filter-All, Distinct, NoneHas,
  Distinct-take, Distinct-filter, Distinct-find, Distinct-update_first, filter, take, update_first,
}
use rallya.Common.Int.{ℤ, pos}
use rallya.Model.Order.{Order, expired}
use rallya.Store.{Db, Env}
use rallya.Ticketing.Inventory.{release_tx}
use rallya.Orders.Types.{OrderError, call_err, internal}
use rallya.Orders.Rows.{find_order, has_id, is_expired, update_order_row}
use rallya.Orders.Sweep.{expire_one, expire_all, tally, sweep_expired, batch_size}
use rallya.Orders.Accounts.{is_live, Balanced, release_tx-sold}
use rallya.Orders.ChangeBooks.{expire_one-Balanced, update_order_row-eq-ok}

abbrev pub order_key : Order → ℕ
order_key o = o.id

-- Order identifiers are a primary key.
abbrev pub UniqueOrders : Db → Type 0
UniqueOrders db = Distinct order_key db.orders

abbrev pub Sound : Db → Type 0
Sound db = Balanced db × UniqueOrders db

-- A row of the store that is still as it was read, and live.
abbrev pub Current : Db → Order → Type 0
Current db o = (find_order o.id db.orders ≡ some o) × (is_live o.status ≡ true)

-- An expiry overwrites its own row and no other.
pub expire_one-orders :
    (env : Env) (o : Order) (db : Db) {r : Unit {0} × Db}
    → expire_one env o db ≡ ok r
    → r.1.orders ≡ update_first (has_id o.id) (λ _. record o { status = expired }) db.orders
unfolding expire_one
expire_one-orders env o db h =
    let (org, e0, k0) = bind-eq-ok (or_raise (env.org_of o.event_id) internal db) _ h in
    let (a, e, k) =
      bind-eq-ok (map_err (λ _. internal) (release_tx env o.ticket_type_id (pos o.quantity)) org.1)
        _ k0 in
    let (b, e', k') =
      bind-eq-ok (map_err call_err (update_order_row env (record o { status = expired })) a.1) _
        k in
    ground (
      arith,
      release_tx-sold env o.ticket_type_id 0 (pos o.quantity) org.1 (
          map_err-eq-ok (λ _. internal) (release_tx env o.ticket_type_id (pos o.quantity)) org.1 e),
      update_order_row-eq-ok env (record o { status = expired }) a.1
          (map_err-eq-ok call_err (update_order_row env (record o { status = expired })) a.1 e'),
    )

find-update_other :
    (id : ℕ) (p q : Order) (os : List Order)
    → (q.id == id) ≡ false
    → p.id ≡ id
    → find_order q.id os ≡ some q
    → find_order q.id (update_first (has_id id) (λ _. p) os) ≡ some q
find-update_other id p q [] ne same h = h
find-update_other id p q (x ∷ os) ne same h = ground (arith, find-update_other id p q os ne same)

expire_one-Current :
    (env : Env) (o q : Order) (db : Db) {r : Unit {0} × Db}
    → expire_one env o db ≡ ok r
    → (q.id == o.id) ≡ false
    → Current db q
    → Current r.1 q
expire_one-Current env o q db h ne (found, live) = (
  rw (expire_one-orders env o db h)
      (find-update_other o.id (record o { status = expired }) q db.orders ne refl found),
  live,
)

expire_one-Unique :
    (env : Env) (o : Order) (db : Db) {r : Unit {0} × Db}
    → expire_one env o db ≡ ok r
    → UniqueOrders db
    → UniqueOrders r.1
expire_one-Unique env o db h unique = rw (expire_one-orders env o db h) (
    Distinct-update_first order_key (has_id o.id) (λ _. record o { status = expired }) db.orders
      (λ x here. ground arith) unique)

-- One turn of the loop keeps the books, and the rows that are still to come.
pub tally-Sound :
    (env : Env) (o : Order) (os : List Order) (done : ℕ) (db : Db)
    → NoneHas order_key o.id os
    → Current db o
    → All (Current db) os
    → Sound db
    → let next = tally (expire_one env o db) done db in Sound next.1 × All (Current next.1) os
tally-Sound env o os done db apart current rest (balanced, unique) = go (expire_one env o db) refl
  where
    go :
        (x : Result OrderError (Unit {0} × Db))
        → expire_one env o db ≡ x
        → Sound (tally x done db).1 × All (Current (tally x done db).1) os
    go (err e) h = ((balanced, unique), rest)
    go (ok r) h = (
      (
        expire_one-Balanced env o db current.0 current.1 h balanced,
        expire_one-Unique env o db h unique,
      ),
      All-zip (λ q. (q.id == o.id) ≡ false) (Current db) (Current r.1) os
          (λ q ne c. expire_one-Current env o q db h ne c) apart rest,
    )

expire_all-Sound :
    (envs : ℕ → Env) (os : List Order) (done : ℕ) (db : Db)
    → Distinct order_key os
    → All (Current db) os
    → Sound db
    → Sound (expire_all envs os done db).1
unfolding expire_all
expire_all-Sound envs [] done db distinct current sound = sound
expire_all-Sound envs (o ∷ os) done db distinct current sound =
    let next = tally (expire_one (envs o.id) o db) done db in
    let (sound', rest) =
      tally-Sound (envs o.id) o os done db distinct.0 current.0 current.1 sound in
    expire_all-Sound envs os next.0 next.1 distinct.1 rest sound'

held-live : (now : ℕ) (o : Order) → is_expired now o ≡ true → is_live o.status ≡ true
held-live now o h = ground arith

pub selected-Current :
    (now limit : ℕ) (db : Db)
    → UniqueOrders db
    → All (Current db) (take limit (filter (is_expired now) db.orders))
selected-Current now limit db unique =
    All-take (Current db) limit (filter (is_expired now) db.orders) (
      All-zip (λ o. find_order o.id db.orders ≡ some o) (λ o. is_expired now o ≡ true) (Current db)
        (filter (is_expired now) db.orders) (λ o found late. (found, held-live now o late))
        (All-filter (λ o. find_order o.id db.orders ≡ some o) (is_expired now) db.orders
          (Distinct-find order_key db.orders unique))
        (filter-All (is_expired now) db.orders))

-- If the sold count of every ticket type is what its live orders hold and order identifiers are
-- distinct, both still hold after a sweep of expired orders, whichever of its transactions fail.
pub sweep_expired-Sound :
    (env : Env) (envs : ℕ → Env) (batch : ℤ) (db : Db) {r : ℕ × Db}
    → sweep_expired env envs batch db ≡ ok r
    → Sound db
    → Sound r.1
unfolding sweep_expired
sweep_expired-Sound env envs batch db {r = r} h sound =
    let os = take (batch_size batch) (filter (is_expired env.now) db.orders) in
    let swept : r.1 ≡ (expire_all envs os 0 db).1 = ground arith in
    rw swept (
      expire_all-Sound envs os 0 db
        (Distinct-take order_key (batch_size batch) (filter (is_expired env.now) db.orders)
          (Distinct-filter order_key (is_expired env.now) db.orders sound.1))
        (selected-Current env.now (batch_size batch) db sound.1) sound)
