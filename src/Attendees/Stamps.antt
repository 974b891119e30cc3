-- ===== src/Attendees/Stamps.antt =====
-- internal/attendee/service/attendee_service.go: what the door flips write, and the check-in time of
-- an attendee against its status.
use rallya.Common.{
  ℕ, ◌≡◌, refl, Bytes, Bool, true, ◌&&◌, ◌==◌, none, some, is_some, arith, ok, find, update_first,
  All, All-update_first, Option-cases, Bool-cases, inl, inr, if◌then◌else◌,
}
use rallya.Model.Attendee.{Attendee, registered, checked_in, is_checked_in, is_registered}
use rallya.Store.{Db, Env}
use rallya.Attendees.Types.{ScanVerdict, RevertVerdict}
use rallya.Attendees.Rows.{has_id}
use rallya.Attendees.Door.{apply_checkin, apply_checkin_manual, revert_checkin, verdict, token_ok}

abbrev pub IsStamped : Attendee → Type 0
IsStamped a = is_checked_in a.status ≡ is_some a.checked_in_at

-- Every row's check-in time is set exactly while the row is checked in.
abbrev pub Stamped : Db → Type 0
Stamped db = All IsStamped db.attendees

-- Who is let in: a registered attendee of the event, with a good token.
abbrev pub admits : Bool → Bool → Attendee → Bool
admits here good a = here && good && is_registered a.status

abbrev pub arrived : Env → Attendee → Attendee
arrived env a = record a { status = checked_in; checked_in_at = some env.now }

abbrev pub overwritten : Attendee → Db → Db
overwritten a db = record db { attendees = update_first (has_id a.id) (λ _. a) db.attendees }

abbrev pub decided : Env → Bool → Bool → Attendee → ScanVerdict
decided env here good a =
    if admits here good a
    then record {
      event_ok = here;
      token_ok = good;
      status = checked_in;
      flipped = true;
      checked_in_at = some env.now;
    }
    else verdict here good a.status

abbrev pub after_scan : Env → Bool → Bool → Attendee → Db → Db
after_scan env here good a db = if admits here good a then overwritten (arrived env a) db else db

pub apply_checkin-eq-ok :
    (env : Env) (id : ℕ) (raw : Bytes) (event_id : ℕ) (db : Db) {r : ScanVerdict × Db}
    → apply_checkin env id raw event_id db ≡ ok r
    → (a : Attendee) × (find (has_id id) db.attendees ≡ some a)
      × (r.0 ≡ decided env (a.event_id == event_id) (token_ok env a raw) a)
      × (r.1 ≡ after_scan env (a.event_id == event_id) (token_ok env a raw) a db)
unfolding apply_checkin
apply_checkin-eq-ok env id raw event_id db h = elim (Option-cases (find (has_id id) db.attendees)) [
  | inl missing ↦ absurd (ground arith)
  | inr (a, e) ↦ (a, e, ground arith, ground arith)
]

pub apply_checkin_manual-eq-ok :
    (env : Env) (id : ℕ) (event_id : ℕ) (db : Db) {r : ScanVerdict × Db}
    → apply_checkin_manual env id event_id db ≡ ok r
    → (a : Attendee) × (find (has_id id) db.attendees ≡ some a)
      × (r.0 ≡ decided env (a.event_id == event_id) true a)
      × (r.1 ≡ after_scan env (a.event_id == event_id) true a db)
unfolding apply_checkin_manual
apply_checkin_manual-eq-ok env id event_id db h =
    elim (Option-cases (find (has_id id) db.attendees)) [
      | inl missing ↦ absurd (ground arith)
      | inr (a, e) ↦ (a, e, ground arith, ground arith)
    ]

abbrev pub sent_back : Attendee → Attendee
sent_back a = record a { status = registered; checked_in_at = none }

abbrev pub after_revert : Bool → Attendee → Db → Db
after_revert here a db = if here && is_checked_in a.status then overwritten (sent_back a) db else db

pub revert_checkin-eq-ok :
    (env : Env) (id : ℕ) (event_id : ℕ) (db : Db) {r : RevertVerdict × Db}
    → revert_checkin env id event_id db ≡ ok r
    → (a : Attendee) × (find (has_id id) db.attendees ≡ some a)
      × (r.0.event_ok ≡ (a.event_id == event_id))
      × (r.0.reverted ≡ (a.event_id == event_id) && is_checked_in a.status)
      × (r.1 ≡ after_revert (a.event_id == event_id) a db)
unfolding revert_checkin
revert_checkin-eq-ok env id event_id db h = elim (Option-cases (find (has_id id) db.attendees)) [
  | inl missing ↦ absurd (ground arith)
  | inr (a, e) ↦ (a, e, ground arith, ground arith, ground arith)
]

-- Overwriting a row with a stamped one.
pub overwritten-Stamped :
    (a : Attendee) (db : Db) → IsStamped a → Stamped db → Stamped (overwritten a db)
overwritten-Stamped a db stamp h =
    All-update_first IsStamped (has_id a.id) (λ _. a) db.attendees (λ x here old. stamp) h

pub after_scan-Stamped :
    (env : Env) (here good : Bool) (a : Attendee) (db : Db)
    → Stamped db
    → Stamped (after_scan env here good a db)
after_scan-Stamped env here good a db h = elim (Bool-cases (admits here good a)) [
  | inl this ↦ rw this (overwritten-Stamped (arrived env a) db refl h)
  | inr that ↦ rw that h
]

pub after_revert-Stamped :
    (here : Bool) (a : Attendee) (db : Db) → Stamped db → Stamped (after_revert here a db)
after_revert-Stamped here a db h = elim (Bool-cases (here && is_checked_in a.status)) [
  | inl this ↦ rw this (overwritten-Stamped (sent_back a) db refl h)
  | inr that ↦ rw that h
]
