-- ===== src/Model/Attendee.antt =====
-- internal/attendee/model/attendee.go.
use rallya.Common.{ℕ, String, Bytes, Bool, true, false, Option}

pub data AttendeeStatus : Type 0 where
  registered checked_in cancelled : AttendeeStatus

pub record Attendee : Type 0 where
  pub id : ℕ
  pub order_id : Option ℕ
  pub unit_index : ℕ
  pub event_id : ℕ
  pub user_id : Option ℕ
  pub email : String
  pub name : Option String
  pub token_hash : Bytes
  pub status : AttendeeStatus
  pub checked_in_at : Option ℕ

abbrev pub is_registered : AttendeeStatus → Bool
is_registered registered = true
is_registered _ = false

abbrev pub is_checked_in : AttendeeStatus → Bool
is_checked_in checked_in = true
is_checked_in _ = false
