-- ===== src/Ticketing/Admin.antt =====
-- internal/ticketing/service/ticket_service.go: the management of ticket types.
use rallya.Common.{
  ℕ, ◌+◌, Bool, true, false, not, Option, none, some, Tx, ◌>>=◌, ◌>>◌, raise_if, map_err, pure,
  some_and, ltb, or_raise, String, trim_space, codes, is_empty, List, gets, if◌then◌else◌, map,
  ◌==◌,
}
use mathlib.Core.Option.{map as map_option}
use rallya.Common.Int.{ℤ, pos_part, is_positive, is_negative, gt_bound, lt_bound, int64}
use rallya.Model.Ticket.{TicketType, TicketStatus, draft, active, paused}
use rallya.Model.Audit.{Entry}
use rallya.Store.{Db, Env, EventInfo, emit_tx}
use rallya.Ticketing.Types.{
  TicketError, TicketView, lookup_err, call_err, ticket_not_found, invalid_name, invalid_price,
  invalid_qty, invalid_window, invalid_status, event_capacity, event_unresolved, has_sales,
  internal, to_ticket_type,
}
use rallya.Ticketing.Rows.{
  get_type_by_id, create_type_row, update_type_row, delete_type_row, allocated_total,
  list_types_by_event,
}

pub record CreateInput : Type 0 where
  pub name : String
  pub description : Option String
  pub price_cents : ℤ
  pub currency : String
  pub quantity_total : ℤ
  pub max_per_order : Option ℤ
  pub sale_starts_at : Option ℕ
  pub sale_ends_at : Option ℕ

-- `checkWindow`
abbrev pub bad_window : Option ℕ → Option ℕ → Bool
bad_window starts ends = some_and starts (λ s. some_and ends (λ e. not (ltb s e)))

abbrev pub check_window : Option ℕ → Option ℕ → Tx Db TicketError (Unit {0})
check_window starts ends = raise_if (bad_window starts ends) invalid_window

-- `checkEventHeadroom`: the sum is an int64.
unfoldable pub check_event_headroom : Env → EventInfo → ℕ → Option ℕ → Tx Db TicketError (Unit {0})
unfolding allocated_total
check_event_headroom env ev qty exclude = elim ev.capacity [
  | none ↦ pure tt
  | some capacity ↦ do
    allocated ← map_err call_err (allocated_total env ev.event_id exclude)
    raise_if (gt_bound (int64 (allocated + qty)) capacity) event_capacity
]

-- `resolveType`
unfoldable pub resolve_type : Env → ℕ → String → Tx Db TicketError TicketType
unfolding get_type_by_id
resolve_type env event_id ref = do
  id ← or_raise (env.parse_uuid (codes (trim_space ref))) ticket_not_found
  t ← map_err lookup_err (get_type_by_id env id)
  raise_if (not (t.event_id == event_id)) ticket_not_found
  pure t

abbrev pub ticket_entry : ℕ → Option ℕ → String → ℕ → Entry
ticket_entry org caller action id = record {
  org_id = some org;
  actor_id = caller;
  action = action;
  object_type = "ticket";
  object_id = some id;
}

abbrev pub or_usd : String → String
or_usd c = if is_empty c then "USD" else c

abbrev pub limit_of : Option ℤ → Option ℕ
limit_of none = none
limit_of (some m) = some (pos_part m)

abbrev pub new_type : Env → EventInfo → CreateInput → TicketType
new_type env ev input = record {
  id = env.new_id;
  event_id = ev.event_id;
  name = trim_space input.name;
  description = input.description;
  price_cents = pos_part input.price_cents;
  currency = or_usd (env.to_upper (trim_space input.currency));
  quantity_total = pos_part input.quantity_total;
  quantity_sold = 0;
  max_per_order = limit_of input.max_per_order;
  sale_starts_at = input.sale_starts_at;
  sale_ends_at = input.sale_ends_at;
  status = draft;
  deleted = false;
}

-- `CreateType`
unfoldable pub create_type :
    Env → Option ℕ → String → String → CreateInput → Tx Db TicketError TicketView
unfolding create_type_row check_event_headroom
create_type env caller org_ref event_ref input = do
  ev ← or_raise (env.get_event caller org_ref event_ref) event_unresolved
  raise_if (is_empty (trim_space input.name)) invalid_name
  raise_if (is_negative input.price_cents) invalid_price
  raise_if (not (is_positive input.quantity_total)) invalid_qty
  check_window input.sale_starts_at input.sale_ends_at
  raise_if (some_and input.max_per_order (λ m. not (is_positive m))) invalid_qty
  check_event_headroom env ev (pos_part input.quantity_total) none
  org ← or_raise (env.org_of ev.event_id) internal
  map_err call_err (create_type_row env (new_type env ev input))
  emit_tx env internal (ticket_entry org caller "ticket.created" env.new_id)
  pure (to_ticket_type (new_type env ev input) ev.published env.now)

-- `nil` leaves a field as it is.
pub record UpdateInput : Type 0 where
  pub name : Option String
  pub description : Option String
  pub price_cents : Option ℤ
  pub currency : Option String
  pub quantity_total : Option ℤ
  pub max_per_order : Option ℤ
  pub sale_starts_at : Option ℕ
  pub sale_ends_at : Option ℕ

abbrev pub given {ℓ} : {A : Type ℓ} → Option A → A → A
given none old = old
given (some a) old = a

abbrev pub given_or {ℓ} : {A : Type ℓ} → Option A → Option A → Option A
given_or none old = old
given_or (some a) old = some a

abbrev pub edited : Env → UpdateInput → TicketType → TicketType
edited env input t = record t {
  name = given (map_option trim_space input.name) t.name;
  description = given_or input.description t.description;
  price_cents = given (map_option pos_part input.price_cents) t.price_cents;
  currency = given (map_option (λ c. env.to_upper (trim_space c)) input.currency) t.currency;
  quantity_total = given (map_option pos_part input.quantity_total) t.quantity_total;
  max_per_order = given_or (limit_of input.max_per_order) t.max_per_order;
  sale_starts_at = given_or input.sale_starts_at t.sale_starts_at;
  sale_ends_at = given_or input.sale_ends_at t.sale_ends_at;
}

-- The guards on the fields of an update, in the source's order.
abbrev pub check_update : UpdateInput → TicketType → Tx Db TicketError (Unit {0})
check_update input t = do
  raise_if (some_and input.name (λ n. is_empty (trim_space n))) invalid_name
  raise_if (some_and input.price_cents is_negative) invalid_price
  raise_if (some_and input.quantity_total (λ q. not (is_positive q))) invalid_qty
  raise_if (some_and input.quantity_total (λ q. lt_bound q t.quantity_sold)) has_sales
  raise_if (some_and input.max_per_order (λ m. not (is_positive m))) invalid_qty

-- `UpdateType`
unfoldable pub update_type :
    Env → Option ℕ → String → String → String → UpdateInput → Tx Db TicketError TicketView
unfolding update_type_row check_event_headroom resolve_type
update_type env caller org_ref event_ref ref input = do
  ev ← or_raise (env.get_event caller org_ref event_ref) event_unresolved
  t ← resolve_type env ev.event_id ref
  check_update input t
  let u = edited env input t
  check_window u.sale_starts_at u.sale_ends_at
  check_event_headroom env ev u.quantity_total (some t.id)
  map_err call_err (update_type_row env u)
  pure (to_ticket_type u ev.published env.now)

-- `DeleteType`
unfoldable pub delete_type :
    Env → Option ℕ → String → String → String → Tx Db TicketError (Unit {0})
unfolding delete_type_row resolve_type
delete_type env caller org_ref event_ref ref = do
  ev ← or_raise (env.get_event caller org_ref event_ref) event_unresolved
  t ← resolve_type env ev.event_id ref
  raise_if (ltb 0 t.quantity_sold) has_sales
  org ← or_raise (env.org_of ev.event_id) internal
  map_err call_err (delete_type_row env t.id)
  emit_tx env internal (ticket_entry org caller "ticket.deleted" t.id)

abbrev pub action_of : TicketStatus → String
action_of paused = "ticket.paused"
action_of _ = "ticket.activated"

-- `setStatus`, with the statuses that it may start from as a test.
unfoldable pub set_status :
    Env
    → Option ℕ
    → String
    → String
    → String
    → TicketStatus
    → (TicketStatus → Bool)
    → Tx Db TicketError TicketView
unfolding update_type_row resolve_type
set_status env caller org_ref event_ref ref to from = do
  ev ← or_raise (env.get_event caller org_ref event_ref) event_unresolved
  t ← resolve_type env ev.event_id ref
  raise_if (not (from t.status)) invalid_status
  let u = record t { status = to }
  org ← or_raise (env.org_of ev.event_id) internal
  map_err call_err (update_type_row env u)
  emit_tx env internal (ticket_entry org caller (action_of to) t.id)
  pure (to_ticket_type u ev.published env.now)

abbrev pub may_activate : TicketStatus → Bool
may_activate active = false
may_activate _ = true

abbrev pub may_pause : TicketStatus → Bool
may_pause active = true
may_pause _ = false

-- `Activate`
unfoldable pub activate : Env → Option ℕ → String → String → String → Tx Db TicketError TicketView
unfolding set_status
activate env caller org_ref event_ref ref =
    set_status env caller org_ref event_ref ref active may_activate

-- `Pause`
unfoldable pub pause : Env → Option ℕ → String → String → String → Tx Db TicketError TicketView
unfolding set_status
pause env caller org_ref event_ref ref =
    set_status env caller org_ref event_ref ref paused may_pause

-- `ListTypes`
unfoldable pub list_types : Env → Option ℕ → String → String → Tx Db TicketError (List TicketView)
unfolding list_types_by_event
list_types env caller org_ref event_ref = do
  ev ← or_raise (env.get_event caller org_ref event_ref) event_unresolved
  ts ← gets (list_types_by_event ev.event_id true)
  pure (map (λ t. to_ticket_type t ev.published env.now) ts)

-- `ListPublicTypes`
unfoldable pub list_public_types : Env → ℕ → Tx Db TicketError (List TicketView)
unfolding list_types_by_event
list_public_types env event_id = do
  or_raise (env.get_public_event event_id) event_unresolved
  ts ← gets (list_types_by_event event_id false)
  pure (map (λ t. to_ticket_type t true env.now) ts)
