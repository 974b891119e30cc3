-- ===== src/Orders/Types.antt =====
-- internal/order/service: the error sentinels, their translation from the ticketing domain, and the
-- wire view of an order.
use rallya.Common.{ℕ, String, Option, some}
use rallya.Model.Order.{Order, OrderStatus}
use rallya.Model.Audit.{Entry}
use rallya.Store.{DbError, not_found}
use rallya.Ticketing.Types.{TicketError, Reason}

-- errors.go, with `ErrEventAtCapacity` of the subscription domain.
pub data OrderError : Type 0 where
  order_not_found ticket_gone sold_out too_many : OrderError
  invalid_qty invalid_status event_at_capacity internal : OrderError

abbrev pub lookup_err : DbError → OrderError
lookup_err not_found = order_not_found
lookup_err _ = internal

abbrev pub call_err : DbError → OrderError
call_err e = internal

-- `morphReserveErr`
abbrev pub morph_reserve_err : TicketError → OrderError
morph_reserve_err TicketError.sold_out = sold_out
morph_reserve_err TicketError.invalid_qty = invalid_qty
morph_reserve_err TicketError.too_many = too_many
morph_reserve_err _ = ticket_gone

-- `morphReleaseErr`
abbrev pub morph_release_err : TicketError → OrderError
morph_release_err e = ticket_gone

-- `unavailableErr`
abbrev pub unavailable_err : Option Reason → OrderError
unavailable_err (some Reason.sold_out) = sold_out
unavailable_err _ = ticket_gone

pub record OrderView : Type 0 where
  pub id : ℕ
  pub event_id : ℕ
  pub ticket_type_id : ℕ
  pub quantity : ℕ
  pub price_cents : ℕ
  pub currency : String
  pub status : OrderStatus
  pub expires_at : Option ℕ

-- `toOrder`, less the creation time
abbrev pub to_order : Order → OrderView
to_order o = record {
  id = o.id;
  event_id = o.event_id;
  ticket_type_id = o.ticket_type_id;
  quantity = o.quantity;
  price_cents = o.price_cents;
  currency = o.currency;
  status = o.status;
  expires_at = o.expires_at;
}

abbrev pub order_entry : ℕ → Option ℕ → String → ℕ → Entry
order_entry org actor action id = record {
  org_id = some org;
  actor_id = actor;
  action = action;
  object_type = "order";
  object_id = some id;
}
