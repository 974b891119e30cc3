-- ===== src/Attendees/Door.antt =====
-- internal/attendee/service/attendee_service.go: the row flips that the check-in domain applies
-- inside its transactions. A missing row is passed on as the repository's error.
use rallya.Common.{
  ℕ, Bytes, bytes_eq, Bool, true, false, not, ◌&&◌, ◌||◌, raise, none, some, ◌==◌, Tx, ◌>>=◌, ◌>>◌,
  pure, is_nil,
}
use rallya.Model.Attendee.{
  Attendee, AttendeeStatus, registered, checked_in, is_registered, is_checked_in,
}
use rallya.Store.{Db, DbError, Env, not_found}
use rallya.Attendees.Types.{ScanVerdict, RevertVerdict}
use rallya.Attendees.Rows.{get_for_update_row, update_attendee, get_attendee_by_id}

-- `tokenOK`
abbrev pub token_ok : Env → Attendee → Bytes → Bool
token_ok env a raw = not (is_nil raw) && bytes_eq (env.hash_token raw) a.token_hash

-- `flip`
unfoldable pub flip : Env → Attendee → ScanVerdict → Tx Db DbError ScanVerdict
unfolding update_attendee
flip env a v = do
  update_attendee env (record a { status = checked_in; checked_in_at = some env.now })
  pure (record v { flipped = true; status = checked_in; checked_in_at = some env.now })

abbrev pub unless_refused :
    Bool → ScanVerdict → Tx Db DbError ScanVerdict → Tx Db DbError ScanVerdict
unless_refused true v m = pure v
unless_refused false v m = m

abbrev pub verdict : Bool → Bool → AttendeeStatus → ScanVerdict
verdict event_ok token_ok status = record {
  event_ok = event_ok;
  token_ok = token_ok;
  status = status;
  flipped = false;
  checked_in_at = none;
}

-- `ApplyCheckin`
unfoldable pub apply_checkin : Env → ℕ → Bytes → ℕ → Tx Db DbError ScanVerdict
unfolding get_for_update_row flip
apply_checkin env id raw event_id = do
  a ← get_for_update_row env id
  let v = verdict (a.event_id == event_id) (token_ok env a raw) a.status
  unless_refused (not v.event_ok || not v.token_ok || not (is_registered a.status)) v (flip env a v)

-- `ApplyCheckinManual`
unfoldable pub apply_checkin_manual : Env → ℕ → ℕ → Tx Db DbError ScanVerdict
unfolding get_for_update_row flip
apply_checkin_manual env id event_id = do
  a ← get_for_update_row env id
  let v = verdict (a.event_id == event_id) true a.status
  unless_refused (not v.event_ok || not (is_registered a.status)) v (flip env a v)

abbrev pub take_back : Env → Attendee → Bool → Tx Db DbError RevertVerdict
take_back env a true = do
  update_attendee env (record a { status = registered; checked_in_at = none })
  pure (record { event_ok = true; status = registered; reverted = true })
take_back env a false = pure (record { event_ok = true; status = a.status; reverted = false })

-- `RevertCheckin`
unfoldable pub revert_checkin : Env → ℕ → ℕ → Tx Db DbError RevertVerdict
unfolding get_for_update_row update_attendee
revert_checkin env id event_id = do
  a ← get_for_update_row env id
  let here = a.event_id == event_id
  v ← take_back env a (here && is_checked_in a.status)
  pure (record v { event_ok = here })

abbrev pub in_event : Bool → AttendeeStatus → Tx Db DbError AttendeeStatus
in_event true status = pure status
in_event false status = raise not_found

-- `AttendeeStatusInEvent`
unfoldable pub attendee_status_in_event : Env → ℕ → ℕ → Tx Db DbError AttendeeStatus
unfolding get_attendee_by_id
attendee_status_in_event env id event_id = do
  a ← get_attendee_by_id env id
  in_event (a.event_id == event_id) a.status
