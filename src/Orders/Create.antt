-- ===== src/Orders/Create.antt =====
-- internal/order/service/order_service.go: `CreateOrder` and the steps of its transaction.
use rallya.Common.{
  ◌&&◌, ℕ, ◌+◌, String, Bool, true, false, not, Option, none, some, some_and, ◌==◌, List, [], ◌∷◌,
  ◌++◌, map, Tx, ◌>>=◌, ◌>>◌, raise_if, map_err, or_raise, gets, modify, pure, trim_space, is_empty,
  if◌then◌else◌,
}
use rallya.Common.Int.{ℤ, pos_part, is_positive, gt_bound, int64}
use rallya.Model.Order.{Order, confirmed, pending_payment, is_confirmed}
use rallya.Store.{Db, Env, User, Email, call, enqueue, emit_tx}
use rallya.Attendees.Types.{AttendeeError, Minted}
use rallya.Attendees.Mint.{Buyer, mint_for_order}
use rallya.Attendees.Payload.{build_payload}
use rallya.Attendees.Roster.{count_roster}
use rallya.Subscription.Entitlements.{entitlement}
use rallya.Ticketing.Types.{TicketView}
use rallya.Ticketing.Inventory.{inspect_type, reserve_tx}
use rallya.Orders.Types.{
  OrderError, OrderView, call_err, morph_reserve_err, unavailable_err, to_order, order_entry,
  ticket_gone, too_many, invalid_qty, event_at_capacity, internal,
}
use rallya.Orders.Rows.{get_order_by_idempotency, create_order_row}

-- `HoldTTL`: 15 minutes, in seconds.
abbrev pub hold_ttl : ℕ
hold_ttl = 900

pub record CreateInput : Type 0 where
  pub ticket_type_id : ℕ
  pub quantity : ℤ
  pub idempotency_key : String

abbrev pub any_attendee_err : AttendeeError → OrderError
any_attendee_err e = internal

abbrev pub within_capacity : Env → ℕ → ℕ → Option ℕ → Tx Db OrderError (Unit {0})
within_capacity env event_id quantity none = pure tt
within_capacity env event_id quantity (some org) = do
  limit ← gets (λ db. (entitlement env org db).limits.max_attendees_per_event)
  n ← map_err any_attendee_err (count_roster env event_id)
  raise_if (gt_bound (int64 (n + quantity)) limit) event_at_capacity

-- `checkAttendeeCapacity`
unfoldable pub check_attendee_capacity : Env → ℕ → ℕ → Tx Db OrderError (Unit {0})
unfolding count_roster entitlement
check_attendee_capacity env event_id quantity =
    within_capacity env event_id quantity (if env.counter_wired then env.org_of event_id else none)

abbrev pub buyer_name : User → String
buyer_name u = elim u.first_name [ none ↦ u.email | some n ↦ if is_empty n then u.email else n ]

abbrev pub mint_wired : Env → Order → ℕ → Bool → Tx Db OrderError (List Minted)
mint_wired env o user false = pure []
mint_wired env o user true = do
  u ← or_raise (env.get_user user) internal
  let b : Buyer = record {
    order_id = o.id;
    user_id = user;
    event_id = o.event_id;
    email = u.email;
    name = buyer_name u;
  }
  map_err any_attendee_err (mint_for_order env b o.quantity)

-- `mintTx`
unfoldable pub mint_tx : Env → Order → ℕ → Tx Db OrderError (List Minted)
mint_tx env o user = mint_wired env o user env.minter_wired

abbrev pub send : Env → Order → ℕ → List Minted → Bool → Tx Db OrderError (Unit {0})
send env o user minted false = pure tt
send env o user minted true = do
  u ← or_raise (env.get_user user) internal
  title ← or_raise (env.event_title o.event_id) internal
  map_err call_err (call env enqueue)
  let e : Email = record {
    order_id = o.id;
    email = u.email;
    name = buyer_name u;
    event_title = title;
    items = map (λ m. build_payload env m.id m.qr_token) minted;
  }
  modify (λ db. record db { emails = db.emails ++ e ∷ [] })

abbrev pub any_minted : List Minted → Bool
any_minted [] = false
any_minted (m ∷ ms) = true

-- `enqueueConfirmation`
unfoldable pub enqueue_confirmation : Env → Order → ℕ → List Minted → Tx Db OrderError (Unit {0})
enqueue_confirmation env o user minted =
    send env o user minted (env.mailer_wired && any_minted minted && env.secret_set)

abbrev pub new_order : Env → ℕ → ℕ → TicketView → ℕ → String → Order
new_order env user event_id tt quantity key = record {
  id = env.new_id;
  user_id = user;
  event_id = event_id;
  ticket_type_id = tt.id;
  quantity = quantity;
  price_cents = tt.price_cents;
  currency = tt.currency;
  status = if tt.price_cents == 0 then confirmed else pending_payment;
  stripe_session_id = none;
  stripe_payment_intent_id = none;
  paid_at = none;
  idempotency_key = if is_empty key then none else some key;
  expires_at = if tt.price_cents == 0 then none else some (env.now + hold_ttl);
}

-- What the transaction does for an order that is confirmed at once.
abbrev pub confirm_now : Env → ℕ → ℕ → Order → Bool → Tx Db OrderError (Unit {0})
confirm_now env org user o false = pure tt
confirm_now env org user o true = do
  minted ← mint_tx env o user
  enqueue_confirmation env o user minted
  emit_tx env internal (order_entry org (some user) "order.confirmed" o.id)

-- The transaction: the hold, the row, the audit entry, and the door records of a free order.
unfoldable pub claim : Env → ℕ → ℕ → Order → ℤ → Tx Db OrderError (Unit {0})
unfolding reserve_tx create_order_row mint_tx enqueue_confirmation
claim env org user o n = do
  map_err morph_reserve_err (reserve_tx env o.ticket_type_id n)
  map_err call_err (create_order_row env o)
  emit_tx env internal (order_entry org (some user) "order.created" o.id)
  confirm_now env org user o (is_confirmed o.status)

-- The guards of a claim on an inspected type.
abbrev pub check_type : TicketView → Bool → ℕ → ℤ → Tx Db OrderError (Unit {0})
check_type t published event_id n = do
  raise_if (not (t.event_id == event_id)) ticket_gone
  raise_if (not published) ticket_gone
  raise_if (not t.for_sale) (unavailable_err t.unavailable_reason)
  raise_if (some_and t.max_per_order (gt_bound n)) too_many

-- `CreateOrder` past the idempotency lookup.
unfoldable pub create_new : Env → ℕ → ℕ → CreateInput → Tx Db OrderError OrderView
unfolding inspect_type claim check_attendee_capacity
create_new env user event_id input = do
  found ← map_err (λ _. ticket_gone) (inspect_type env input.ticket_type_id)
  check_type found.0 found.1 event_id input.quantity
  check_attendee_capacity env event_id (pos_part input.quantity)
  org ← or_raise (env.org_of event_id) internal
  let key = trim_space input.idempotency_key
  let o = new_order env user event_id found.0 (pos_part input.quantity) key
  claim env org user o input.quantity
  pure (to_order o)

abbrev pub find_replay : Env → ℕ → String → Bool → Tx Db OrderError (Option Order)
find_replay env user key true = pure none
find_replay env user key false = map_err call_err (get_order_by_idempotency env user key)

abbrev pub replay_or : Option Order → Tx Db OrderError OrderView → Tx Db OrderError OrderView
replay_or none m = m
replay_or (some o) m = pure (to_order o)

-- `CreateOrder`
unfoldable pub create_order : Env → ℕ → ℕ → CreateInput → Tx Db OrderError OrderView
unfolding get_order_by_idempotency create_new
create_order env user event_id input = do
  raise_if (not (is_positive input.quantity)) invalid_qty
  let key = trim_space input.idempotency_key
  existing ← find_replay env user key (is_empty key)
  replay_or existing (create_new env user event_id input)
