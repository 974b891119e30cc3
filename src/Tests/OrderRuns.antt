-- ===== src/Tests/OrderRuns.antt =====
-- Claims, payments, cancellations and sweeps of the shop.
use rallya.Common.{
  ℕ, not, false, ◌==◌, ◌⊎◌, All, count, take, filter, ◌≤◌, none, ◌≡◌, ◌+◌, refl, true, some, ok,
  arith, trim_space,
}
use rallya.Model.Subscription.{entitlement_for_plan}
use rallya.Common.Int.{pos}
use rallya.Model.Ticket.{TicketType}
use rallya.Model.Order.{Order, OrderStatus, expired, cancelled, is_confirmed}
use rallya.Store.{Db, Env}
use rallya.Ticketing.Stock.{sold_of}
use rallya.Orders.Rows.{find_order, has_id, is_expired}
use rallya.Orders.Types.{OrderView, to_order, order_entry}
use rallya.Orders.Create.{CreateInput, claim, create_order}
use rallya.Orders.Payment.{mark_paid}
use rallya.Orders.Cancel.{cancel_order, cancel_commit}
use rallya.Orders.Sweep.{sweep_expired, expire_one, batch_size}
use rallya.Orders.Accounts.{Balanced, held}
use rallya.Orders.CreateBooks.{create_order-Balanced}
use rallya.Orders.ChangeBooks.{cancel_order-Balanced}
use rallya.Orders.SweepBooks.{Sound, sweep_expired-Sound}
use rallya.Orders.Progress.{ended, cancel_order-succeeds}
use rallya.Orders.Replays.{mark_paid_again}
use rallya.Orders.Races.{stale_expiry-releases_twice, stale_expiry-erases_payment}
use rallya.Orders.DoorRecords.{claim-has_units}
use rallya.Orders.NoOversell.{create_order-Stocked}
use rallya.Ticketing.Bounds.{Stocked}
use rallya.Ticketing.Rows.{find_type}
use rallya.Attendees.Twice.{has_unit}
use rallya.Attendees.Mint.{mint_for_order}
use rallya.Orders.SweepProgress.{sweep_expired-count, is_swept, EndsAs}
use rallya.Tests.World.{world, shop, seat, unpaid, after}

abbrev two_seats : CreateInput
two_seats = record { ticket_type_id = 7; quantity = pos 2; idempotency_key = "k" }

abbrev one_seat : CreateInput
one_seat = record { ticket_type_id = 8; quantity = pos 1; idempotency_key = " k " }

shop-Balanced : Balanced shop
shop-Balanced id = ground arith

shop-Sound : Sound shop
shop-Sound = (shop-Balanced, ((refl, tt), (tt, tt)))

-- The lapsed order is swept.
sweep_expired-Sound_example :
    Sound (after (sweep_expired (world 1000 50) (λ o. world 1000 50) (pos 100) shop))
unfolding sweep_expired
sweep_expired-Sound_example =
    sweep_expired-Sound (world 1000 50) (λ o. world 1000 50) (pos 100) shop refl shop-Sound

create_order-Balanced_example : Balanced (after (create_order (world 1000 50) 5 3 two_seats shop))
unfolding create_order trim_space entitlement_for_plan
create_order-Balanced_example =
    create_order-Balanced (world 1000 50) 5 3 two_seats shop refl shop-Balanced

cancel_order-Balanced_example : Balanced (after (cancel_order (world 1000 50) 5 1 shop))
unfolding cancel_order
cancel_order-Balanced_example = cancel_order-Balanced (world 1000 50) 5 1 shop refl shop-Balanced

mark_paid_again_example :
    mark_paid (world 2000 51) 1 "cs2" "pi2" (after (mark_paid (world 1000 50) 1 "cs" "pi" shop))
    ≡ mark_paid (world 1000 50) 1 "cs" "pi" shop
unfolding mark_paid
mark_paid_again_example =
    mark_paid_again (world 1000 50) (world 2000 51) 1 "cs" "pi" "cs2" "pi2" shop refl refl

cancel_order-succeeds_example :
    (t : TicketType) × (find_type 7 shop.types ≡ some t)
    × (2 ≤ t.quantity_sold)
    × (cancel_order (world 1000 50) 5 1 shop
        ≡ ok (
          to_order (record (unpaid 1 900) { status = cancelled }),
          ended
              (world 1000 50)
              (order_entry 9 (some 5) "order.cancelled" 1)
              cancelled
              (unpaid 1 900)
              t
              shop,
        ))
unfolding cancel_order
cancel_order-succeeds_example =
    cancel_order-succeeds (world 1000 50) 5 (unpaid 1 900) 9 shop ((refl, refl), refl, refl, refl)
      refl shop-Balanced refl (omega arith) refl refl refl

stale_expiry-releases_twice_example :
    (v : OrderView) × (db1 : Db) × (db2 : Db) × (cancel_commit
        (world 1000 50)
        5
        (unpaid 1 900)
        9
        shop
      ≡ ok (v, db1))
    × (expire_one (world 1001 51) (unpaid 1 900) db1 ≡ ok (tt, db2))
    × (sold_of 7 db2.types + 2 ≡ held 7 db2.orders)
stale_expiry-releases_twice_example =
    stale_expiry-releases_twice (world 1000 50) (world 1001 51) 5 9 (unpaid 1 900) shop {t = seat}
      ((refl, refl), refl, refl, refl) ((refl, refl), refl, refl, refl) refl refl refl refl
      (omega arith) (omega arith) shop-Balanced

stale_expiry-erases_payment_example :
    (is_confirmed OrderStatus.confirmed ≡ true)
    × (find_order 1
          (after (
            expire_one
              (world 1001 51)
              (unpaid 1 900)
              (after (mark_paid (world 1000 50) 1 "cs" "pi" shop)))).orders
        ≡ some (record (unpaid 1 900) { status = expired }))
unfolding mark_paid expire_one
stale_expiry-erases_payment_example =
    stale_expiry-erases_payment (world 1000 50) (world 1001 51) "cs" "pi" (unpaid 1 900) shop refl
      refl refl

abbrev free_order : Order
free_order = record (unpaid 50 0) {
  price_cents = 0;
  status = OrderStatus.confirmed;
  expires_at = none;
}

claim-has_units_example :
    has_unit 50 (after (claim (world 1000 50) 9 5 free_order (pos 2) shop)) 1 ≡ true
unfolding claim trim_space mint_for_order
claim-has_units_example =
    claim-has_units (world 1000 50) 9 5 free_order (pos 2) 1 shop refl refl refl (omega arith)

shop-Stocked : Stocked shop
shop-Stocked = ((omega arith, omega arith), tt)

create_order-Stocked_example : Stocked (after (create_order (world 1000 50) 5 3 two_seats shop))
unfolding create_order trim_space entitlement_for_plan
create_order-Stocked_example =
    create_order-Stocked (world 1000 50) 5 3 two_seats shop refl shop-Stocked

-- At time 2000 both orders have lapsed, and the database refuses every call for order 1.
abbrev flaky : ℕ → Env
flaky id = record (world 2000 50) { fault = λ c. id == 1 }

abbrev half_swept : Db
half_swept = after (sweep_expired (world 2000 50) flaky (pos 100) shop)

fault_free : (id : ℕ) → not (id == 1) ≡ true → (id == 1) ≡ false
fault_free id h = ground arith

sweep_expired-count_example :
    let os = take (batch_size (pos 100)) (filter (is_expired 2000) shop.orders) in
    (1 ≡ count (is_swept half_swept) os)
    × All (EndsAs (λ id. not (id == 1)) half_swept) os
    × ((q : ℕ)
        → (1 ≤ count (has_id q) os) ⊎ (find_order q half_swept.orders ≡ find_order q shop.orders))
unfolding sweep_expired expire_one
sweep_expired-count_example =
    sweep_expired-count (world 2000 50) flaky (λ id. not (id == 1)) (pos 100) shop
      (λ id w. let fine = fault_free id w in ((fine, fine), fine, fine, fine)) (λ o. (9, refl))
      shop-Sound (omega arith, (omega arith, tt)) refl
