-- ===== src/Orders/Payment.antt =====
-- internal/order/service/order_service.go: `MarkPaid` and `SetStripeSession`.
use rallya.Common.{
  ℕ, String, Bool, true, false, not, ◌&&◌, none, some, Tx, ◌>>=◌, ◌>>◌, raise_if, map_err, or_raise,
  pure, is_empty, if◌then◌else◌,
}
use rallya.Model.Order.{Order, confirmed, is_confirmed, is_pending_payment}
use rallya.Store.{Db, Env, emit_tx}
use rallya.Orders.Types.{
  OrderError, OrderView, lookup_err, call_err, to_order, order_entry, invalid_status, internal,
}
use rallya.Orders.Rows.{get_order_by_id, update_order_row}

abbrev pub paid : Env → String → String → Order → Order
paid env session intent o = record o {
  status = confirmed;
  stripe_session_id = some session;
  stripe_payment_intent_id = if is_empty intent then o.stripe_payment_intent_id else some intent;
  paid_at = some env.now;
}

-- `MarkPaid` of an order that is not confirmed yet.
abbrev pub confirm : Env → Order → String → String → Tx Db OrderError OrderView
confirm env o session intent = do
  raise_if (not (is_pending_payment o.status)) invalid_status
  org ← or_raise (env.org_of o.event_id) internal
  map_err call_err (update_order_row env (paid env session intent o))
  emit_tx env internal (order_entry org none "order.confirmed" o.id)
  pure (to_order (paid env session intent o))

abbrev pub unless_confirmed : Bool → Order → Tx Db OrderError OrderView → Tx Db OrderError OrderView
unless_confirmed true o m = pure (to_order o)
unless_confirmed false o m = m

-- `MarkPaid`
unfoldable pub mark_paid : Env → ℕ → String → String → Tx Db OrderError OrderView
unfolding get_order_by_id update_order_row
mark_paid env id session intent = do
  o ← map_err lookup_err (get_order_by_id env id)
  unless_confirmed (is_confirmed o.status) o (confirm env o session intent)

-- `SetStripeSession`; a missing order is passed on as the repository's error.
unfoldable pub set_stripe_session : Env → ℕ → String → Tx Db OrderError (Unit {0})
unfolding get_order_by_id update_order_row
set_stripe_session env id session = do
  o ← map_err call_err (get_order_by_id env id)
  raise_if (not (is_pending_payment o.status) && not (is_confirmed o.status)) invalid_status
  map_err call_err (update_order_row env (record o { stripe_session_id = some session }))
