-- ===== src/Tests/StockRuns.antt =====
-- The ticket types of the shop.
use rallya.Common.{
  true, false, not, some_and, ltb, ◌≡◌, ◌<◌, ◌≤◌, ◌↔◌, refl, ok, some, none, arith, update_first,
  sum_of, trim_space,
}
use rallya.Common.Int.{pos}
use rallya.Ticketing.Rows.{has_id, set_sold, allocation, update_type_row}
use rallya.Ticketing.Inventory.{reserve_tx, release_tx}
use rallya.Ticketing.Admin.{CreateInput, UpdateInput, create_type, update_type, edited}
use rallya.Ticketing.Stock.{sold_of, Claimable, reserve_tx_iff, release_tx-reserve_tx}
use rallya.Ticketing.Bounds.{Stocked, reserve_tx-Stocked, create_type-headroom}
use rallya.Ticketing.Races.{stale_edit-loses_sale}
use rallya.Ticketing.Edits.{update_type-Stocked}
use rallya.Ticketing.OnSale.{availability_iff}
use rallya.Ticketing.Types.{availability}
use rallya.Model.Ticket.{active}
use rallya.Tests.World.{world, shop, seat, after, fair}

shop-Stocked : Stocked shop
shop-Stocked = ((omega arith, omega arith), tt)

reserve_tx_iff_example :
    (reserve_tx (world 1000 50) 7 (pos 3) shop
      ≡ ok (tt, record shop { types = update_first (has_id 7) (set_sold 7) shop.types }))
    ↔ Claimable 3 seat
reserve_tx_iff_example =
    reserve_tx_iff (world 1000 50) 7 3 shop seat (refl, refl) refl (omega arith) (omega arith)

release_tx-reserve_tx_example :
    release_tx (world 1000 50) 7 (pos 3) (after (reserve_tx (world 1000 50) 7 (pos 3) shop))
    ≡ ok (tt, shop)
unfolding reserve_tx
release_tx-reserve_tx_example =
    release_tx-reserve_tx (world 1000 50) 7 (pos 3) shop (refl, refl) refl

reserve_tx-Stocked_example : Stocked (after (reserve_tx (world 1000 50) 7 (pos 3) shop))
unfolding reserve_tx
reserve_tx-Stocked_example = reserve_tx-Stocked (world 1000 50) 7 (pos 3) shop refl shop-Stocked

abbrev standing : CreateInput
standing = record {
  name = " Standing ";
  description = none;
  price_cents = pos 0;
  currency = "";
  quantity_total = pos 90;
  max_per_order = none;
  sale_starts_at = some 10;
  sale_ends_at = some 20;
}

create_type-headroom_example :
    sum_of
      (allocation 3 none)
      (after (create_type (world 1000 50) (some 6) "org" "fair" standing shop)).types
    ≤ 100
unfolding create_type trim_space
create_type-headroom_example =
    create_type-headroom (world 1000 50) (some 6) "org" "fair" standing shop {ev = fair} {cap = 100}
      refl refl refl (omega arith)

abbrev smaller : UpdateInput
smaller = record {
  name = none;
  description = none;
  price_cents = none;
  currency = none;
  quantity_total = some (pos 4);
  max_per_order = none;
  sale_starts_at = none;
  sale_ends_at = none;
}

update_type-Stocked_example :
    Stocked (after (update_type (world 1000 50) (some 6) "org" "fair" "7" smaller shop))
unfolding update_type trim_space
update_type-Stocked_example =
    update_type-Stocked (world 1000 50) (some 6) "org" "fair" "7" smaller shop refl shop-Stocked

abbrev renamed : UpdateInput
renamed = record smaller { name = some "Chair"; quantity_total = none }

stale_edit-loses_sale_example :
    (4 < sold_of 7 (after (reserve_tx (world 1000 50) 7 (pos 3) shop)).types)
    × (sold_of 7
          (after (
            update_type_row
              (world 1001 51)
              (edited (world 1001 51) renamed seat)
              (after (reserve_tx (world 1000 50) 7 (pos 3) shop)))).types
        ≡ 4)
unfolding reserve_tx update_type_row trim_space
stale_edit-loses_sale_example =
    stale_edit-loses_sale (world 1000 50) (world 1001 51) 7 (pos 3) renamed shop {t = seat} refl
      refl refl

availability_iff_example : ((availability seat true 1000).for_sale ≡ true) ↔ (
    (true ≡ true)
    × (seat.status ≡ active)
    × (some_and seat.sale_starts_at (λ s. ltb 1000 s) ≡ false)
    × (some_and seat.sale_ends_at (λ e. not (ltb 1000 e)) ≡ false)
    × (4 < 10))
availability_iff_example = availability_iff seat true 1000
