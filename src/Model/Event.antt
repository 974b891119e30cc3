-- ===== src/Model/Event.antt =====
-- internal/event/model: events and their publish lifecycle. Times are instants, so `utcPtr` keeps
-- them.
use rallya.Common.{ℕ, String, Bytes, Bool, true, false, Option}
use rallya.Common.Int.{ℤ}

-- `EventStatus`
pub data EventStatus : Type 0 where
  draft published cancelled : EventStatus

abbrev pub status_eq : EventStatus → EventStatus → Bool
status_eq draft draft = true
status_eq published published = true
status_eq cancelled cancelled = true
status_eq _ _ = false

-- `Event`; a deleted row is kept with deleted_at set.
pub record Event : Type 0 where
  pub id : ℕ
  pub org_id : ℕ
  pub title : String
  pub slug : Bytes
  pub description : Option String
  pub venue : Option String
  pub location : Option String
  pub starts_at : Option ℕ
  pub ends_at : Option ℕ
  pub capacity : Option ℤ
  pub cover_url : Option String
  pub status : EventStatus
  pub created_by : Option ℕ
  pub deleted : Bool

-- `EventImage`
pub record EventImage : Type 0 where
  pub id : ℕ
  pub event_id : ℕ
  pub url : String
  pub public_id : String
  pub format : String
  pub bytes : ℤ
  pub width : ℤ
  pub height : ℤ

-- `Published`
abbrev pub is_published : Event → Bool
is_published e = status_eq e.status EventStatus.published
