-- ===== src/Attendees/Types.antt =====
-- internal/attendee/service/errors.go, and the values that the attendee domain hands to others.
use rallya.Common.{ℕ, Bytes, Bool, Option}
use rallya.Model.Attendee.{AttendeeStatus}
use rallya.Store.{DbError, not_found}

pub data AttendeeError : Type 0 where
  attendee_not_found invalid_email invalid_status internal : AttendeeError

abbrev pub lookup_err : DbError → AttendeeError
lookup_err not_found = attendee_not_found
lookup_err _ = internal

abbrev pub call_err : DbError → AttendeeError
call_err e = internal

-- `MintedAttendee`: a row with its raw token.
pub record Minted : Type 0 where
  pub id : ℕ
  pub qr_token : Bytes

-- checkin/service, `ScanVerdict`
pub record ScanVerdict : Type 0 where
  pub event_ok : Bool
  pub token_ok : Bool
  pub status : AttendeeStatus
  pub flipped : Bool
  pub checked_in_at : Option ℕ

-- checkin/service, `RevertVerdict`
pub record RevertVerdict : Type 0 where
  pub event_ok : Bool
  pub status : AttendeeStatus
  pub reverted : Bool
