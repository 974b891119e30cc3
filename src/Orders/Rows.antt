-- ===== src/Orders/Rows.antt =====
-- internal/order/repository/order_repository.go: the queries on orders.
use rallya.Common.{
  ℕ, Bool, true, false, not, ◌&&◌, Option, none, some, some_and, List, [], ◌∷◌, ◌++◌, ◌==◌, String,
  str_eq, leb, find, filter, take, update_first, Tx, ◌>>=◌, ◌>>◌, raise_if, gets, modify, is_some,
  if◌then◌else◌,
}
use rallya.Model.Order.{Order, is_held}
use rallya.Ticketing.Rows.{fits_column}
use rallya.Store.{
  Db, DbError, Env, unique_violation, failed, call, first, get_order,
  get_order_by_idempotency as call_idempotency, create_order as call_create,
  update_order as call_update, expired_pending as call_expired,
}

abbrev pub has_id : ℕ → Order → Bool
has_id id o = o.id == id

abbrev pub find_order : ℕ → List Order → Option Order
find_order id = find (has_id id)

-- user_id = ? AND idempotency_key = ?
abbrev pub has_key : ℕ → String → Order → Bool
has_key user key o = o.user_id == user && some_and o.idempotency_key (λ k. str_eq k key)

-- `GetOrderByID`
unfoldable pub get_order_by_id : Env → ℕ → Tx Db DbError Order
get_order_by_id env id = first env get_order (has_id id) (λ db. db.orders)

-- `GetOrderByIdempotency`, where the absence of a row is no error to its caller.
unfoldable pub get_order_by_idempotency : Env → ℕ → String → Tx Db DbError (Option Order)
get_order_by_idempotency env user key = do
  call env call_idempotency
  gets (λ db. find (has_key user key) db.orders)

-- The keys that a row may not share: its id, and its user with an idempotency key.
abbrev clashes : Order → Order → Bool
clashes o p = if p.id == o.id then true else some_and o.idempotency_key (λ k. has_key o.user_id k p)

-- `CreateOrder`
unfoldable pub create_order_row : Env → Order → Tx Db DbError (Unit {0})
create_order_row env o = do
  call env call_create
  clash ← gets (λ db. find (clashes o) db.orders)
  raise_if (is_some clash) unique_violation
  raise_if (not (fits_column o.quantity)) failed
  modify (λ db. record db { orders = db.orders ++ o ∷ [] })

abbrev pub same_session : Option String → Option String → Bool
same_session none none = true
same_session (some s) (some t) = str_eq s t
same_session _ _ = false

-- Another row with the same Stripe session.
abbrev pub takes_session : Order → Order → Bool
takes_session o p =
    not (p.id == o.id)
    && some_and o.stripe_session_id (λ s. some_and p.stripe_session_id (λ t. str_eq t s))

-- `UpdateOrder`, with the unique index on stripe_session_id of migrations/000013: a session that the
-- row did not have may not be another row's. A row that keeps its session cannot break the index,
-- which held before.
unfoldable pub update_order_row : Env → Order → Tx Db DbError (Unit {0})
update_order_row env o = do
  call env call_update
  kept ← gets (λ db.
      some_and (find_order o.id db.orders)
        (λ p. same_session o.stripe_session_id p.stripe_session_id))
  clash ← gets (λ db. find (takes_session o) db.orders)
  raise_if (not kept && is_some clash) unique_violation
  modify (λ db. record db { orders = update_first (has_id o.id) (λ _. o) db.orders })

abbrev pub is_expired : ℕ → Order → Bool
is_expired now o = is_held o.status && some_and o.expires_at (λ e. leb e now)

-- `ExpiredPending`
unfoldable pub expired_pending : Env → ℕ → Tx Db DbError (List Order)
expired_pending env limit = do
  call env call_expired
  gets (λ db. take limit (filter (is_expired env.now) db.orders))
