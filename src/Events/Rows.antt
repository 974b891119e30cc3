-- ===== src/Events/Rows.antt =====
-- internal/event/repository/event_repository.go, with the checks and the unique slug of
-- migrations/000006.
use rallya.Common.{
  ℕ, String, Bytes, bytes_eq, codes, Bool, true, not, ◌&&◌, ◌||◌, Option, some, [], ◌∷◌, ◌++◌, leb,
  ltb, ◌==◌, find, count, length, update_first, Tx, ◌>>=◌, ◌>>◌, raise_if, gets, modify, pure,
  is_some, some_and,
}
use rallya.Common.Int.{is_positive}
use rallya.Model.Event.{Event, EventStatus, status_eq}
use rallya.Store.{
  Db, DbError, Env, unique_violation, failed, first, call, create_event as call_create_event,
  get_event_by_id as call_get_event_by_id, get_event_by_slug as call_get_event_by_slug,
  update_event as call_update_event, delete_event as call_delete_event,
  count_events as call_count_events,
}

abbrev pub has_event : ℕ → Event → Bool
has_event id e = e.id == id && not e.deleted

abbrev pub has_slug : ℕ → Bytes → Event → Bool
has_slug org_id slug e = e.org_id == org_id && (bytes_eq e.slug slug && not e.deleted)

-- `checkDates`: whether an event ends after it starts, where it has both.
abbrev pub dates_ok : Option ℕ → Option ℕ → Bool
dates_ok (some starts) (some ends) = ltb starts ends
dates_ok _ _ = true

abbrev pub text_fits : Option String → Bool
text_fits t = not (some_and t (λ s. ltb 255 (length (codes s))))

-- The columns of `events` and their checks.
abbrev pub event_fits : Event → Bool
event_fits e =
    leb (length (codes e.title)) 255
    && (leb (length e.slug) 150
        && (text_fits e.venue
            && (text_fits e.location
                && (dates_ok e.starts_at e.ends_at
                    && not (some_and e.capacity (λ n. not (is_positive n)))))))

abbrev same_slug : Event → Event → Bool
same_slug e f = f.org_id == e.org_id && bytes_eq f.slug e.slug

-- The primary key and the unique slug are of all rows, deleted ones too.
abbrev pub event_clash : Event → Event → Bool
event_clash e f = f.id == e.id || same_slug e f

-- `CreateEvent`
unfoldable pub create_event_row : Env → Event → Tx Db DbError (Unit {0})
create_event_row env e = do
  call env call_create_event
  raise_if (not (event_fits e)) failed
  clash ← gets (λ db. find (event_clash e) db.events)
  raise_if (is_some clash) unique_violation
  modify (λ db. record db { events = db.events ++ e ∷ [] })

-- `GetEventByID`
unfoldable pub get_event_by_id : Env → ℕ → Tx Db DbError Event
get_event_by_id env id = first env call_get_event_by_id (has_event id) (λ db. db.events)

-- `GetEventBySlug`
unfoldable pub get_event_by_slug : Env → ℕ → Bytes → Tx Db DbError Event
get_event_by_slug env org_id slug =
    first env call_get_event_by_slug (has_slug org_id slug) (λ db. db.events)

abbrev pub another_with_slug : Event → Event → Bool
another_with_slug e f = not (f.id == e.id) && same_slug e f

-- `UpdateEvent`
unfoldable pub update_event_row : Env → Event → Tx Db DbError (Unit {0})
update_event_row env e = do
  call env call_update_event
  raise_if (not (event_fits e)) failed
  clash ← gets (λ db. find (another_with_slug e) db.events)
  raise_if (is_some clash) unique_violation
  modify (λ db. record db { events = update_first (has_event e.id) (λ _. e) db.events })

-- `DeleteEvent` sets deleted_at.
unfoldable pub delete_event_row : Env → ℕ → Tx Db DbError (Unit {0})
delete_event_row env id = do
  call env call_delete_event
  modify (λ db. record db {
    events = update_first (has_event id) (λ e. record e { deleted = true }) db.events;
  })

abbrev pub counts_for : ℕ → Event → Bool
counts_for org_id e =
    e.org_id == org_id && (not (status_eq e.status EventStatus.cancelled) && not e.deleted)

-- `CountActiveByOrg`
unfoldable pub count_active_by_org : Env → ℕ → Tx Db DbError ℕ
count_active_by_org env org_id = do
  call env call_count_events
  n ← gets (λ db. count (counts_for org_id) db.events)
  pure n
