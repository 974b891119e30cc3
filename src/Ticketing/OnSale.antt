-- ===== src/Ticketing/OnSale.antt =====
-- internal/ticketing/service/ticket_service.go: `Availability`.
use rallya.Common.{ℕ, ◌<◌, ◌≡◌, ◌↔◌, Bool, true, false, not, some_and, ltb, arith}
use rallya.Model.Ticket.{TicketType, active, remaining}
use rallya.Ticketing.Types.{availability}

-- A type is for sale exactly if its event is published, the type is active, its sale has started and
-- has not ended, and less is sold than there is.
pub availability_iff :
    (t : TicketType) (published : Bool) (now : ℕ)
    → ((availability t published now).for_sale ≡ true) ↔ (
        (published ≡ true)
        × (t.status ≡ active)
        × (some_and t.sale_starts_at (λ s. ltb now s) ≡ false)
        × (some_and t.sale_ends_at (λ e. not (ltb now e)) ≡ false)
        × (t.quantity_sold < t.quantity_total))
unfolding availability remaining
availability_iff t published now =
    (λ h. (ground arith, ground arith, ground arith, ground arith, ground arith), λ h. ground arith)
