-- ===== src/Events/Types.antt =====
-- internal/event/service/errors.go, the view of dto, and the inputs of event_service.go.
use rallya.Common.{ℕ, String, Bytes, Option}
use rallya.Common.Int.{ℤ}
use rallya.Model.Event.{Event, EventStatus}
use rallya.Store.{DbError, not_found, unique_violation}
use rallya.Orgs.Types.{OrgError}

-- errors.go, less `ErrForbidden`, which the service never returns, with `ErrUpgradeRequired` of the
-- subscription domain; `internal` is a failure that is passed on.
pub data EventError : Type 0 where
  event_not_found slug_taken invalid_slug invalid_title invalid_dates invalid_cap : EventError
  invalid_status org_unresolved upgrade_required internal : EventError
  cover_too_large cover_type cover_required too_many_files : EventError

abbrev pub call_err : DbError → EventError
call_err e = internal

abbrev pub org_err : OrgError → EventError
org_err e = org_unresolved

abbrev pub passed_on : OrgError → EventError
passed_on e = internal

-- `errors.Is(err, gorm.ErrRecordNotFound)` at the lookups.
abbrev pub event_err : DbError → EventError
event_err not_found = event_not_found
event_err _ = internal

-- `isUniqueViolation` at the writes.
abbrev pub slug_err : DbError → EventError
slug_err unique_violation = slug_taken
slug_err _ = internal

-- dto.Event, less its times of creation and update.
pub record EventView : Type 0 where
  pub id : ℕ
  pub title : String
  pub slug : Bytes
  pub description : Option String
  pub venue : Option String
  pub location : Option String
  pub starts_at : Option ℕ
  pub ends_at : Option ℕ
  pub capacity : Option ℤ
  pub cover_url : Option String
  pub status : EventStatus

-- `toEvent`
unfoldable pub to_event : Event → EventView
to_event e = record {
  id = e.id;
  title = e.title;
  slug = e.slug;
  description = e.description;
  venue = e.venue;
  location = e.location;
  starts_at = e.starts_at;
  ends_at = e.ends_at;
  capacity = e.capacity;
  cover_url = e.cover_url;
  status = e.status;
}

-- `CreateInput`
pub record CreateInput : Type 0 where
  pub title : String
  pub slug : String
  pub description : Option String
  pub venue : Option String
  pub location : Option String
  pub starts_at : Option ℕ
  pub ends_at : Option ℕ
  pub capacity : Option ℤ
