-- ===== src/Checkin/Repeats.antt =====
-- internal/checkin/service/checkin_service.go: scans and reverts one after the other.
use rallya.Common.{
  ℕ, String, Bytes, ◌≡◌, refl, sym, ap, ◌∙◌, Bool, true, ◌==◌, some, List, [], ◌∷◌, arith, ok, find,
  update_first, All-find,
}
use rallya.Model.Attendee.{Attendee, AttendeeStatus, registered}
use rallya.Model.Checkin.{checked_in as outcome_checked_in, already_checked_in}
use rallya.Store.{Db, Env}
use rallya.Attendees.Rows.{has_id}
use rallya.Attendees.Stamps.{IsStamped, Stamped, overwritten, arrived, sent_back}
use rallya.Checkin.Scan.{ScanResult, scan_manual, revert}
use rallya.Checkin.Trail.{answer, scan_manual-eq-ok, revert-eq-ok}

find-id :
    (id : ℕ) {a : Attendee} (rows : List Attendee) → find (has_id id) rows ≡ some a → a.id ≡ id
find-id id {a = a} [] h = cc
find-id id {a = a} (x ∷ rows) h = ground (arith, find-id id {a = a} rows)

unstamped : (a : Attendee) → a.status ≡ registered → IsStamped a → sent_back a ≡ a
unstamped a was stamp = ground arith

find-overwritten :
    (id : ℕ) (b : Attendee) {a : Attendee} (rows : List Attendee)
    → find (has_id id) rows ≡ some a
    → a.id ≡ id
    → b.id ≡ id
    → find (has_id id) (update_first (has_id b.id) (λ _. b) rows) ≡ some b
find-overwritten id b {a = a} [] h own same = cc
find-overwritten id b {a = a} (x ∷ rows) h own same =
    ground (arith, find-overwritten id b {a = a} rows)

overwrite-back :
    (id : ℕ) (b : Attendee) {a : Attendee} (rows : List Attendee)
    → find (has_id id) rows ≡ some a
    → a.id ≡ id
    → b.id ≡ id
    → update_first (has_id a.id) (λ _. a) (update_first (has_id b.id) (λ _. b) rows) ≡ rows
overwrite-back id b {a = a} [] h own same = refl
overwrite-back id b {a = a} (x ∷ rows) h own same = ground (arith, overwrite-back id b {a = a} rows)

answer-checked_in :
    (here good : Bool) (s : AttendeeStatus)
    → answer here good s ≡ outcome_checked_in
    → (here ≡ true) × (good ≡ true) × (s ≡ registered)
answer-checked_in here good s h = (ground arith, ground arith, ground arith)

-- After a manual scan that let an attendee in, a second manual scan with the same organization, event
-- reference and attendee reference, by any member of staff, that succeeds while both references
-- resolve as they did, answers that the attendee is already checked in, and leaves all attendees.
pub scan_manual_again :
    (env env' : Env) (org : ℕ) (event_ref : String) (ref : Bytes) (staff staff' : ℕ) (db : Db)
    {r r' : ScanResult × Db}
    → scan_manual env org event_ref ref staff db ≡ ok r
    → r.0.outcome ≡ outcome_checked_in
    → env'.resolve_event org event_ref ≡ env.resolve_event org event_ref
    → env'.parse_uuid ref ≡ env.parse_uuid ref
    → scan_manual env' org event_ref ref staff' r.1 ≡ ok r'
    → (r'.0.outcome ≡ already_checked_in) × (r'.1.attendees ≡ r.1.attendees)
scan_manual_again env env' org event_ref ref staff staff' db {r = r} {r' = r'} h let_in ev uu h' =
    let (e, i, a, re, pa, found, said, wrote, logged) =
      scan_manual-eq-ok env org event_ref ref staff db h in
    let (e', i', a', re', pa', found', said', wrote', logged') =
      scan_manual-eq-ok env' org event_ref ref staff' r.1 h' in
    let (here, good, was) = answer-checked_in (a.event_id == e) true a.status (sym said ∙ let_in) in
    let same_event : e' ≡ e = cc in
    let own : a.id ≡ i = find-id i {a = a} db.attendees found in
    let same_id : i' ≡ i = cc in
    let rows : r.1.attendees ≡ update_first (has_id a.id) (λ _. arrived env a) db.attendees =
      ground arith in
    let now : find (has_id i) r.1.attendees ≡ some (arrived env a) =
      ap (find (has_id i)) rows
      ∙ find-overwritten i (arrived env a) {a = a} db.attendees found own own in
    let same : a' ≡ arrived env a = cc in (ground arith, ground arith)

-- After a manual scan that let an attendee in, a revert with the same organization, event reference
-- and attendee reference that succeeds, while both references resolve as they did, puts all
-- attendees back as they were before the scan, if check-in times were in step with the statuses.
pub revert-scan_manual :
    (env env' : Env) (org : ℕ) (event_ref : String) (ref : Bytes) (staff staff' : ℕ) (db : Db)
    {r r' : ScanResult × Db}
    → Stamped db
    → scan_manual env org event_ref ref staff db ≡ ok r
    → r.0.outcome ≡ outcome_checked_in
    → env'.resolve_event org event_ref ≡ env.resolve_event org event_ref
    → env'.parse_uuid ref ≡ env.parse_uuid ref
    → revert env' org event_ref ref staff' r.1 ≡ ok r'
    → r'.1.attendees ≡ db.attendees
revert-scan_manual env env' org event_ref ref staff staff' db {r = r} {r' = r'} stamped h let_in ev
      uu h' =
    let (e, i, a, re, pa, found, said, wrote, logged) =
      scan_manual-eq-ok env org event_ref ref staff db h in
    let (e', i', a', re', pa', found', at, was_in, said', wrote', logged') =
      revert-eq-ok env' org event_ref ref staff' r.1 h' in
    let (here, good, was) = answer-checked_in (a.event_id == e) true a.status (sym said ∙ let_in) in
    let own : a.id ≡ i = find-id i {a = a} db.attendees found in
    let same_id : i' ≡ i = cc in
    let rows : r.1.attendees ≡ update_first (has_id a.id) (λ _. arrived env a) db.attendees =
      ground arith in
    let now : find (has_id i) r.1.attendees ≡ some (arrived env a) =
      ap (find (has_id i)) rows
      ∙ find-overwritten i (arrived env a) {a = a} db.attendees found own own in
    let same : a' ≡ arrived env a = cc in
    let back : sent_back a ≡ a =
      unstamped a was (All-find IsStamped (has_id i) {a = a} db.attendees stamped found) in
    wrote'
    ∙ ap (λ x. (overwritten (sent_back x) r.1).attendees) same
    ∙ ap (update_first (has_id a.id) (λ _. sent_back a)) rows
    ∙ ap
        (λ x.
          update_first (has_id a.id) (λ _. x)
            (update_first (has_id a.id) (λ _. arrived env a) db.attendees))
        back
    ∙ overwrite-back i (arrived env a) {a = a} db.attendees found own own
