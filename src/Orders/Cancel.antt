-- ===== src/Orders/Cancel.antt =====
-- internal/order/service/order_service.go: `CancelOrder`, in its two phases: the read and the guards,
-- and the transaction on the order that was read.
use rallya.Common.{ℕ, not, ◌&&◌, some, ◌==◌, Tx, ◌>>=◌, ◌>>◌, raise_if, map_err, or_raise, pure}
use rallya.Common.Int.{pos}
use rallya.Model.Order.{Order, cancelled, is_terminal, is_confirmed}
use rallya.Store.{Db, Env, emit_tx}
use rallya.Ticketing.Inventory.{release_tx}
use rallya.Orders.Types.{
  OrderError, OrderView, lookup_err, call_err, morph_release_err, to_order, order_entry,
  order_not_found, invalid_status, internal,
}
use rallya.Orders.Rows.{get_order_by_id, update_order_row}
use rallya.Orders.Reads.{manageable}

-- The order and the organization that a permitted cancellation acts on.
unfoldable pub cancel_prepare : Env → ℕ → ℕ → Tx Db OrderError (Order × ℕ)
unfolding get_order_by_id manageable
cancel_prepare env caller id = do
  o ← map_err lookup_err (get_order_by_id env id)
  raise_if (not (o.user_id == caller) && not (manageable env caller o)) order_not_found
  raise_if (is_terminal o.status && not (is_confirmed o.status)) invalid_status
  org ← or_raise (env.org_of o.event_id) internal
  pure (o, org)

-- The transaction.
unfoldable pub cancel_commit : Env → ℕ → Order → ℕ → Tx Db OrderError OrderView
unfolding release_tx update_order_row
cancel_commit env caller o org = do
  map_err morph_release_err (release_tx env o.ticket_type_id (pos o.quantity))
  map_err call_err (update_order_row env (record o { status = cancelled }))
  emit_tx env internal (order_entry org (some caller) "order.cancelled" o.id)
  pure (to_order (record o { status = cancelled }))

-- `CancelOrder`
unfoldable pub cancel_order : Env → ℕ → ℕ → Tx Db OrderError OrderView
unfolding cancel_prepare cancel_commit
cancel_order env caller id = do
  plan ← cancel_prepare env caller id
  cancel_commit env caller plan.0 plan.1
