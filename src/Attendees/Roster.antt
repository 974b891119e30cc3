-- ===== src/Attendees/Roster.antt =====
-- internal/attendee/service/attendee_service.go: manual adds, reads, corrections and cancellation.
use rallya.Common.{
  ℕ, ◌+◌, String, Bool, false, not, ◌||◌, Option, none, some, some_and, ◌==◌, Tx, ◌>>=◌, ◌>>◌,
  raise_if, map_err, or_raise, pure, trim_space, is_empty,
}
use Prim.Native.Char.{code}
use rallya.Model.Attendee.{Attendee, registered, cancelled, is_registered, is_checked_in}
use rallya.Store.{Db, Env}
use rallya.Attendees.Types.{
  AttendeeError, lookup_err, call_err, attendee_not_found, invalid_email, invalid_status, internal,
}
use rallya.Attendees.Rows.{get_attendee_by_id, create_attendee, update_attendee, count_by_status}

-- strings.Contains(s, "@")
abbrev pub has_at : String → Bool
has_at String.[] = false
has_at (String.◌∷◌ c s) = code c == b'@' || has_at s

abbrev pub bad_email : String → Bool
bad_email e = is_empty e || not (has_at e)

abbrev pub normal_email : Env → String → String
normal_email env email = env.to_lower (trim_space email)

-- `AddManual`
unfoldable pub add_manual : Env → ℕ → String → String → Option String → Tx Db AttendeeError Attendee
unfolding create_attendee
add_manual env org event_ref email name = do
  event_id ← or_raise (env.resolve_event org event_ref) attendee_not_found
  raise_if (bad_email (normal_email env email)) invalid_email
  token ← or_raise (env.token 0) internal
  let a : Attendee = record {
    id = env.new_id;
    order_id = none;
    unit_index = 0;
    event_id = event_id;
    user_id = none;
    email = normal_email env email;
    name = name;
    token_hash = env.hash_token token;
    status = registered;
    checked_in_at = none;
  }
  map_err call_err (create_attendee env a)
  pure a

abbrev pub is_owner : ℕ → Attendee → Bool
is_owner user a = some_and a.user_id (λ u. u == user)

-- `GetAttendee`
unfoldable pub get_attendee : Env → ℕ → ℕ → Tx Db AttendeeError Attendee
unfolding get_attendee_by_id
get_attendee env user id = do
  a ← map_err lookup_err (get_attendee_by_id env id)
  raise_if (not (is_owner user a)) attendee_not_found
  pure a

-- `GetAttendeeAdmin`
unfoldable pub get_attendee_admin : Env → ℕ → ℕ → Tx Db AttendeeError Attendee
unfolding get_attendee_by_id
get_attendee_admin env user id = do
  a ← map_err lookup_err (get_attendee_by_id env id)
  org ← or_raise (env.org_of a.event_id) attendee_not_found
  raise_if (not (env.can_manage user org)) attendee_not_found
  pure a

abbrev pub with_name : Option String → Attendee → Attendee
with_name none a = a
with_name (some n) a = record a { name = some n }

abbrev pub with_email : Env → Option String → Attendee → Attendee
with_email env none a = a
with_email env (some e) a = record a { email = normal_email env e }

-- `CorrectName`
unfoldable pub correct_name : Env → ℕ → Option String → Option String → Tx Db AttendeeError Attendee
unfolding get_attendee_by_id update_attendee
correct_name env id name email = do
  a ← map_err lookup_err (get_attendee_by_id env id)
  raise_if (some_and email (λ e. bad_email (normal_email env e))) invalid_email
  let b = with_email env email (with_name name a)
  map_err call_err (update_attendee env b)
  pure b

-- `CorrectAttendeeInEvent`
unfoldable pub correct_attendee_in_event :
    Env → ℕ → ℕ → Option String → Option String → Tx Db AttendeeError Attendee
unfolding get_attendee_by_id correct_name
correct_attendee_in_event env event_id id name email = do
  a ← map_err lookup_err (get_attendee_by_id env id)
  raise_if (not (a.event_id == event_id)) attendee_not_found
  correct_name env id name email

-- `CancelMine`
unfoldable pub cancel_mine : Env → ℕ → ℕ → Tx Db AttendeeError Attendee
unfolding get_attendee_by_id update_attendee
cancel_mine env user id = do
  a ← map_err lookup_err (get_attendee_by_id env id)
  raise_if (not (is_owner user a)) attendee_not_found
  raise_if (not (is_registered a.status)) invalid_status
  let b = record a { status = cancelled }
  map_err call_err (update_attendee env b)
  pure b

-- `CountRoster`: the attendees that hold a seat.
unfoldable pub count_roster : Env → ℕ → Tx Db AttendeeError ℕ
unfolding count_by_status
count_roster env event_id = do
  n ← map_err call_err (count_by_status env event_id is_registered)
  m ← map_err call_err (count_by_status env event_id is_checked_in)
  pure (n + m)
