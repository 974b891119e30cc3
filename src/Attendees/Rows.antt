-- ===== src/Attendees/Rows.antt =====
-- internal/attendee/repository/attendee_repository.go: the queries on attendees.
use rallya.Common.{
  ℕ, Bool, true, ◌&&◌, some_and, [], ◌∷◌, ◌++◌, ◌==◌, find, count, map, update_first, Tx, ◌>>=◌,
  ◌>>◌, raise_if, gets, modify, is_some, if◌then◌else◌,
}
use rallya.Model.Attendee.{Attendee, AttendeeStatus, cancelled, is_registered}
use rallya.Store.{
  Db, DbError, Env, unique_violation, call, first, get_attendee, get_for_update,
  exists_for_order as call_exists, create_attendee as call_create, update_attendee as call_update,
  cancel_for_order as call_cancel, count_by_status as call_count,
}

abbrev pub has_id : ℕ → Attendee → Bool
has_id id a = a.id == id

-- order_id = ? AND unit_index = ?
abbrev pub is_unit : ℕ → ℕ → Attendee → Bool
is_unit order unit a = some_and a.order_id (λ o. o == order) && a.unit_index == unit

-- `GetAttendeeByID`
unfoldable pub get_attendee_by_id : Env → ℕ → Tx Db DbError Attendee
get_attendee_by_id env id = first env get_attendee (has_id id) (λ db. db.attendees)

-- `GetForUpdate`
unfoldable pub get_for_update_row : Env → ℕ → Tx Db DbError Attendee
get_for_update_row env id = first env get_for_update (has_id id) (λ db. db.attendees)

-- `ExistsForOrder`
unfoldable pub exists_for_order : Env → ℕ → ℕ → Tx Db DbError Bool
exists_for_order env order unit = do
  call env (call_exists unit)
  gets (λ db. is_some (find (is_unit order unit) db.attendees))

-- The keys that a row may not share: its id, and its order and unit.
abbrev clashes : Attendee → Attendee → Bool
clashes a b = if b.id == a.id then true else some_and a.order_id (λ o. is_unit o a.unit_index b)

-- `CreateAttendee`
unfoldable pub create_attendee : Env → Attendee → Tx Db DbError (Unit {0})
create_attendee env a = do
  call env (call_create a.unit_index)
  clash ← gets (λ db. find (clashes a) db.attendees)
  raise_if (is_some clash) unique_violation
  modify (λ db. record db { attendees = db.attendees ++ a ∷ [] })

-- `UpdateAttendee`
unfoldable pub update_attendee : Env → Attendee → Tx Db DbError (Unit {0})
update_attendee env a = do
  call env call_update
  modify (λ db. record db { attendees = update_first (has_id a.id) (λ _. a) db.attendees })

abbrev pub cancel_row : ℕ → Attendee → Attendee
cancel_row order a =
    if some_and a.order_id (λ o. o == order) && is_registered a.status
    then record a { status = cancelled }
    else a

-- `CancelForOrder`
unfoldable pub cancel_for_order : Env → ℕ → Tx Db DbError (Unit {0})
cancel_for_order env order = do
  call env call_cancel
  modify (λ db. record db { attendees = map (cancel_row order) db.attendees })

-- `CountByStatus` for one status
unfoldable pub count_by_status : Env → ℕ → (AttendeeStatus → Bool) → Tx Db DbError ℕ
count_by_status env event_id is_status = do
  call env call_count
  gets (λ db. count (λ a. a.event_id == event_id && is_status a.status) db.attendees)
