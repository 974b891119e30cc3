-- ===== src/Model/Checkin.antt =====
-- internal/checkin/model/checkin.go.
use rallya.Common.{ℕ, Option}

-- A refusal is an outcome, not an error.
pub data Outcome : Type 0 where
  checked_in already_checked_in invalid_code cancelled wrong_event reverted : Outcome

pub data Method : Type 0 where
  qr manual : Method

pub record CheckinLog : Type 0 where
  pub event_id : ℕ
  pub attendee_id : Option ℕ
  pub scanned_by : ℕ
  pub outcome : Outcome
  pub method : Method
