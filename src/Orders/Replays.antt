-- ===== src/Orders/Replays.antt =====
-- internal/order/service/order_service.go: requests that arrive twice, a redelivered payment webhook
-- and a claim under the same idempotency key.
use rallya.Common.{
  ℕ, ◌≡◌, refl, String, true, false, some, List, [], ◌∷◌, arith, ok, Option-cases, inl, inr,
  update_first, Bool-cases,
}
use rallya.Model.Order.{Order, is_confirmed}
use rallya.Store.{
  Db, Env, get_order as call_get_order, get_order_by_idempotency as call_idempotency,
}
use rallya.Orders.Types.{OrderView, to_order}
use rallya.Orders.Rows.{has_id, find_order, get_order_by_idempotency}
use rallya.Orders.Payment.{mark_paid, paid}
use rallya.Orders.ChangeBooks.{find_order-id}

pub find-update :
    (p : Order) {o : Order} (os : List Order)
    → find_order p.id os ≡ some o
    → find_order p.id (update_first (has_id p.id) (λ _. p) os) ≡ some p
find-update p {o = o} [] h = cc
find-update p {o = o} (x ∷ os) h = ground (arith, find-update p {o = o} os)

-- What a successful payment leaves behind.
pub mark_paid-stored :
    (env : Env) (id : ℕ) (session intent : String) (db : Db) {r : OrderView × Db}
    → mark_paid env id session intent db ≡ ok r
    → (o : Order) × (find_order id r.1.orders ≡ some o)
      × (is_confirmed o.status ≡ true)
      × (r.0 ≡ to_order o)
unfolding mark_paid
mark_paid-stored env id session intent db {r = r} h =
    elim (Option-cases (find_order id db.orders)) [
      | inl missing ↦ absurd (ground arith)
      | inr (o, found) ↦
          let same = find_order-id id {o = o} db.orders found in
          elim (Bool-cases (is_confirmed o.status)) [
            | inl old ↦ (o, ground arith, old, ground arith)
            | inr new ↦ (
              paid env session intent o,
              ground (arith, find-update (paid env session intent o) {o = o} db.orders),
              refl,
              ground arith,
            )
          ]
    ]

-- Marking an order paid again, with any session and intent, gives the same order as the first time
-- and changes nothing, if its lookup works.
pub mark_paid_again :
    (env env' : Env) (id : ℕ) (session intent session' intent' : String) (db : Db)
    {r : OrderView × Db}
    → mark_paid env id session intent db ≡ ok r
    → env'.fault call_get_order ≡ false
    → mark_paid env' id session' intent' r.1 ≡ ok r
unfolding mark_paid
mark_paid_again env env' id session intent session' intent' db {r = r} h reads =
    let (o, found, confirmed, view) = mark_paid-stored env id session intent db h in ground arith
