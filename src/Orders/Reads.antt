-- ===== src/Orders/Reads.antt =====
-- internal/order/service/order_service.go: `GetOrder`, `FindOrder`, `CheckoutDetail`.
use rallya.Common.{
  ℕ, String, Bool, false, not, ◌&&◌, none, some, ◌==◌, Tx, ◌>>=◌, ◌>>◌, raise_if, map_err, or_raise,
  pure,
}
use rallya.Model.Order.{Order, is_pending_payment}
use rallya.Store.{Db, DbError, Env}
use rallya.Ticketing.Inventory.{inspect_type}
use rallya.Orders.Types.{
  OrderError, OrderView, lookup_err, to_order, order_not_found, invalid_status,
}
use rallya.Orders.Rows.{get_order_by_id}

-- `manageable`
unfoldable pub manageable : Env → ℕ → Order → Bool
manageable env user o = elim (env.org_of o.event_id) [
  | none ↦ false
  | some org ↦ env.can_manage user org
]

-- `GetOrder`
unfoldable pub get_order : Env → ℕ → ℕ → Tx Db OrderError OrderView
unfolding get_order_by_id manageable
get_order env user id = do
  o ← map_err lookup_err (get_order_by_id env id)
  raise_if (not (o.user_id == user) && not (manageable env user o)) order_not_found
  pure (to_order o)

-- `FindOrder`
unfoldable pub find_order : Env → ℕ → Tx Db DbError Order
unfolding get_order_by_id
find_order env id = get_order_by_id env id

pub record CheckoutDetail : Type 0 where
  pub order : Order
  pub ticket_name : String
  pub event_title : String

-- `CheckoutDetail`
unfoldable pub checkout_detail : Env → ℕ → ℕ → Tx Db OrderError CheckoutDetail
unfolding get_order_by_id inspect_type
checkout_detail env user id = do
  o ← map_err lookup_err (get_order_by_id env id)
  raise_if (not (o.user_id == user)) order_not_found
  raise_if (not (is_pending_payment o.status)) invalid_status
  found ← map_err (λ _. order_not_found) (inspect_type env o.ticket_type_id)
  title ← or_raise (env.event_title o.event_id) order_not_found
  pure (record { order = o; ticket_name = found.0.name; event_title = title })
