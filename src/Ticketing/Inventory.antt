-- ===== src/Ticketing/Inventory.antt =====
-- internal/ticketing/service/ticket_service.go: `Reserve`, `Release` and their in-transaction forms,
-- and `InspectType`, which the order domain calls.
use rallya.Common.{
  ℕ, zero, suc, ◌+◌, Bool, not, Tx, ◌>>=◌, ◌>>◌, raise_if, map_err, pure, some_and, ltb, is_some,
}
use rallya.Common.Int.{ℤ, pos, negsuc, pos_part, is_positive, gt_bound, int64}
use rallya.Model.Ticket.{is_active}
use rallya.Store.{Db, Env}
use rallya.Ticketing.Types.{
  TicketError, TicketView, lookup_err, call_err, invalid_qty, not_on_sale, too_many, sold_out,
  to_ticket_type,
}
use rallya.Ticketing.Rows.{lock_type_row, add_sold, get_type_by_id}

-- The body of `ReserveTx`.
unfoldable pub reserve_tx : Env → ℕ → ℤ → Tx Db TicketError (Unit {0})
unfolding lock_type_row add_sold
reserve_tx env id n = do
  raise_if (not (is_positive n)) invalid_qty
  t ← map_err lookup_err (lock_type_row env id)
  raise_if (not (is_active t.status)) not_on_sale
  raise_if (some_and t.max_per_order (gt_bound n)) too_many
  raise_if (gt_bound (int64 (t.quantity_sold + pos_part n)) t.quantity_total) sold_out
  map_err call_err (add_sold env id n)

-- `Reserve`
unfoldable pub reserve : Env → ℕ → ℤ → Tx Db TicketError (Unit {0})
unfolding reserve_tx
reserve env id n = do raise_if (not (is_positive n)) invalid_qty; reserve_tx env id n

-- `-n` for n of at least 0
abbrev pub negate : ℕ → ℤ
negate zero = pos 0
negate (suc n) = negsuc n

-- The body of `ReleaseTx`: `t.QuantitySold-n < 0` for n > 0, which does not wrap.
unfoldable pub release_tx : Env → ℕ → ℤ → Tx Db TicketError (Unit {0})
unfolding lock_type_row add_sold
release_tx env id n = do
  raise_if (not (is_positive n)) invalid_qty
  t ← map_err lookup_err (lock_type_row env id)
  raise_if (ltb t.quantity_sold (pos_part n)) invalid_qty
  map_err call_err (add_sold env id (negate (pos_part n)))

-- `Release`
unfoldable pub release : Env → ℕ → ℤ → Tx Db TicketError (Unit {0})
unfolding release_tx
release env id n = do raise_if (not (is_positive n)) invalid_qty; release_tx env id n

-- `InspectType`: the view of a type, and whether its event is published.
unfoldable pub inspect_type : Env → ℕ → Tx Db TicketError (TicketView × Bool)
unfolding get_type_by_id to_ticket_type
inspect_type env id = do
  t ← map_err lookup_err (get_type_by_id env id)
  let published = is_some (env.get_public_event t.event_id)
  pure (to_ticket_type t published env.now, published)
