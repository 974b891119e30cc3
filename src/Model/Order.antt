-- ===== src/Model/Order.antt =====
-- internal/order/model/order.go. Identifiers are UUIDs in the source, numbers here.
use rallya.Common.{ℕ, String, Bool, true, false, Option}

pub data OrderStatus : Type 0 where
  pending pending_payment confirmed cancelled expired : OrderStatus

pub record Order : Type 0 where
  pub id : ℕ
  pub user_id : ℕ
  pub event_id : ℕ
  pub ticket_type_id : ℕ
  pub quantity : ℕ
  pub price_cents : ℕ
  pub currency : String
  pub status : OrderStatus
  pub stripe_session_id : Option String
  pub stripe_payment_intent_id : Option String
  pub paid_at : Option ℕ
  pub idempotency_key : Option String
  pub expires_at : Option ℕ

-- `Terminal`: end states (no further transitions).
abbrev pub is_terminal : OrderStatus → Bool
is_terminal confirmed = true
is_terminal cancelled = true
is_terminal expired = true
is_terminal _ = false

abbrev pub is_confirmed : OrderStatus → Bool
is_confirmed confirmed = true
is_confirmed _ = false

abbrev pub is_pending_payment : OrderStatus → Bool
is_pending_payment pending_payment = true
is_pending_payment _ = false

-- The statuses that `ExpiredPending` selects.
abbrev pub is_held : OrderStatus → Bool
is_held pending = true
is_held pending_payment = true
is_held _ = false
