-- ===== src/Ticketing/Types.antt =====
-- internal/ticketing/service: the error sentinels, the wire view of a type, and `Availability`.
use rallya.Common.{
  ℕ, String, Bool, true, false, not, Option, none, some, ltb, some_and, if◌then◌else◌,
}
use rallya.Model.Ticket.{TicketType, TicketStatus, is_active, is_sold_out, remaining}
use rallya.Store.{DbError, not_found}

-- errors.go; `internal` is a database failure that is passed on.
pub data TicketError : Type 0 where
  ticket_not_found invalid_name invalid_price invalid_qty invalid_window : TicketError
  invalid_status event_capacity event_unresolved has_sales sold_out : TicketError
  not_on_sale too_many internal : TicketError

-- `errors.Is(err, gorm.ErrRecordNotFound)` at a lookup.
abbrev pub lookup_err : DbError → TicketError
lookup_err not_found = ticket_not_found
lookup_err _ = internal

abbrev pub call_err : DbError → TicketError
call_err e = internal

-- The reasons that `Availability` gives.
pub data Reason : Type 0 where
  event_unpublished not_active not_started ended sold_out : Reason

pub record Available : Type 0 where
  pub for_sale : Bool
  pub remaining : ℕ
  pub reason : Option Reason

unfoldable pub availability : TicketType → Bool → ℕ → Available
unfolding remaining
availability t published now =
    if not published
    then record { for_sale = false; remaining = remaining t; reason = some event_unpublished }
    else if not (is_active t.status)
    then record { for_sale = false; remaining = remaining t; reason = some not_active }
    else if some_and t.sale_starts_at (λ s. ltb now s)
    then record { for_sale = false; remaining = remaining t; reason = some not_started }
    else if some_and t.sale_ends_at (λ e. not (ltb now e))
    then record { for_sale = false; remaining = remaining t; reason = some ended }
    else if not (ltb 0 (remaining t))
    then record { for_sale = false; remaining = 0; reason = some Reason.sold_out }
    else record { for_sale = true; remaining = remaining t; reason = none }

-- dto.TicketType, less its timestamps and description.
pub record TicketView : Type 0 where
  pub id : ℕ
  pub event_id : ℕ
  pub name : String
  pub price_cents : ℕ
  pub currency : String
  pub quantity_total : ℕ
  pub quantity_sold : ℕ
  pub remaining : ℕ
  pub for_sale : Bool
  pub unavailable_reason : Option Reason
  pub max_per_order : Option ℕ
  pub status : TicketStatus
  pub sold_out : Bool

unfoldable pub to_ticket_type : TicketType → Bool → ℕ → TicketView
unfolding availability is_sold_out
to_ticket_type t published now =
    let a = availability t published now in
    record {
      id = t.id;
      event_id = t.event_id;
      name = t.name;
      price_cents = t.price_cents;
      currency = t.currency;
      quantity_total = t.quantity_total;
      quantity_sold = t.quantity_sold;
      remaining = a.remaining;
      for_sale = a.for_sale;
      unavailable_reason = a.reason;
      max_per_order = t.max_per_order;
      status = t.status;
      sold_out = is_sold_out t;
    }
