-- ===== src/Model/Ticket.antt =====
-- internal/ticketing/model/ticket.go. Identifiers are UUIDs in the source, numbers here. The integer
-- columns of a row are not negative and fit 32 bits (migrations/000010_ticketing.up.sql).
use rallya.Common.{ℕ, ◌-◌, String, Bool, true, false, Option, ltb, leb, if◌then◌else◌}

pub data TicketStatus : Type 0 where
  draft active paused : TicketStatus

pub record TicketType : Type 0 where
  pub id : ℕ
  pub event_id : ℕ
  pub name : String
  pub description : Option String
  pub price_cents : ℕ
  pub currency : String
  pub quantity_total : ℕ
  pub quantity_sold : ℕ
  pub max_per_order : Option ℕ
  pub sale_starts_at : Option ℕ
  pub sale_ends_at : Option ℕ
  pub status : TicketStatus
  pub deleted : Bool  -- deleted_at is set

abbrev pub is_active : TicketStatus → Bool
is_active active = true
is_active _ = false

-- `SoldOut`
unfoldable pub is_sold_out : TicketType → Bool
is_sold_out t = leb t.quantity_total t.quantity_sold

-- `Remaining`: the difference if it is positive, else 0, which is what `-` gives.
unfoldable pub remaining : TicketType → ℕ
remaining t =
    let r = t.quantity_total - t.quantity_sold in
    if ltb t.quantity_sold t.quantity_total then r else 0
