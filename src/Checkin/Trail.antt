-- ===== src/Checkin/Trail.antt =====
-- internal/checkin/service/checkin_service.go: the answers of scans and reverts, and the rows they
-- write.
use rallya.Common.{
  ℕ, String, Bytes, ◌≡◌, refl, Bool, true, false, not, ◌==◌, some, none, Option, List, [], ◌∷◌,
  ◌++◌, arith, ok, err, Result, find, Option-cases, inl, inr, bind-eq-ok, map_err, map_err-eq-ok,
  or_raise, sym, ap, ◌∙◌, ◌&&◌, ◌⊎◌, ==_iff, found-eq-ok, read-eq-ok, guard-eq-ok, written-eq-ok,
}
use rallya.Model.Attendee.{
  Attendee, AttendeeStatus, registered, checked_in, cancelled, is_checked_in,
}
use rallya.Model.Checkin.{
  Outcome, CheckinLog, checked_in as outcome_checked_in, already_checked_in, invalid_code,
  cancelled as outcome_cancelled, wrong_event, reverted, qr, manual,
}
use rallya.Store.{Db, Env, DbError, not_found, unique_violation, failed}
use rallya.Attendees.Types.{ScanVerdict}
use rallya.Attendees.Rows.{has_id}
use rallya.Attendees.Door.{apply_checkin, apply_checkin_manual, revert_checkin, token_ok}
use rallya.Attendees.Stamps.{
  overwritten, sent_back, decided, after_scan, after_revert, apply_checkin-eq-ok,
  apply_checkin_manual-eq-ok, revert_checkin-eq-ok,
}
use rallya.Checkin.Scan.{
  ScanResult, log_of, log_and_audit, scan_manual, apply_qr, revert, lookup_err, verdict_result,
  verdict_outcome, checkin_not_found, attendee_not_found, or_unknown, check_collections,
  has_active_collections, not_checked_in, insert_tx, internal,
}

-- The rules of the door.
abbrev pub answer : Bool → Bool → AttendeeStatus → Outcome
answer here false status = invalid_code
answer false true status = wrong_event
answer true true registered = outcome_checked_in
answer true true checked_in = already_checked_in
answer true true cancelled = outcome_cancelled

verdict_outcome-decided :
    (env : Env) (here good : Bool) (a : Attendee)
    → verdict_outcome (decided env here good a) ≡ answer here good a.status
unfolding verdict_outcome
verdict_outcome-decided env here good a = ground arith

-- The log row and the audit entry; the attendees stay.
log_and_audit-eq-ok :
    (env : Env) (org : ℕ) (lg : CheckinLog) (db : Db) {r : Unit {0} × Db}
    → log_and_audit env org lg db ≡ ok r
    → (r.1.attendees ≡ db.attendees) × (r.1.checkin_logs ≡ db.checkin_logs ++ lg ∷ [])
unfolding log_and_audit
log_and_audit-eq-ok env org lg db h = (ground arith, ground arith)

-- A manual scan that succeeds has resolved its event and found its attendee; its outcome is the
-- one that the door's rules give, the attendee's row is checked in exactly if the rules admit it,
-- other rows stay, and one log row with the outcome is added.
pub scan_manual-eq-ok :
    (env : Env) (org : ℕ) (event_ref : String) (ref : Bytes) (staff : ℕ) (db : Db)
    {r : ScanResult × Db}
    → scan_manual env org event_ref ref staff db ≡ ok r
    → (event_id : ℕ) × (id : ℕ) × (a : Attendee) × (env.resolve_event org event_ref ≡ some event_id)
      × (env.parse_uuid ref ≡ some id)
      × (find (has_id id) db.attendees ≡ some a)
      × (r.0.outcome ≡ answer (a.event_id == event_id) true a.status)
      × (r.1.attendees ≡ (after_scan env (a.event_id == event_id) true a db).attendees)
      × (r.1.checkin_logs ≡ db.checkin_logs ++ log_of event_id staff r.0 ∷ [])
unfolding scan_manual
scan_manual-eq-ok env org event_ref ref staff db {r = r} h =
    let (a, e, k) =
      bind-eq-ok (or_raise (env.resolve_event org event_ref) checkin_not_found db) _ h in
    let (b, e', k') = bind-eq-ok (or_raise (env.parse_uuid ref) attendee_not_found a.1) _ k in
    let (v, e2, k2) = bind-eq-ok (map_err lookup_err (apply_checkin_manual env b.0 a.0) b.1) _ k' in
    let lg = log_of a.0 staff (verdict_result manual b.0 (some v.0)) in
    let (c, e3, k3) = bind-eq-ok (log_and_audit env org lg v.1) _ k2 in
    let (t, found, said, wrote) =
      apply_checkin_manual-eq-ok env b.0 a.0 b.1
        (map_err-eq-ok lookup_err (apply_checkin_manual env b.0 a.0) b.1 e2) in
    let (same, logged) = log_and_audit-eq-ok env org lg v.1 e3 in
    let rule = verdict_outcome-decided env (t.event_id == a.0) true t in
    (
      a.0,
      b.0,
      t,
      ground arith,
      ground arith,
      ground arith,
      ground arith,
      ground arith,
      ground arith,
    )

or_unknown-cases :
    (x : Result DbError (ScanVerdict × Db)) (db : Db) {r : Option ScanVerdict × Db}
    → or_unknown x db ≡ ok r
    → ((v : ScanVerdict × Db) × (x ≡ ok v) × (r ≡ (some v.0, v.1)))
      ⊎ ((x ≡ err not_found) × (r ≡ (none, db)))
or_unknown-cases (ok v) db h = inl (v, refl, ground arith)
or_unknown-cases (err not_found) db h = inr (refl, ground arith)
or_unknown-cases (err unique_violation) db h = absurd (ground arith)
or_unknown-cases (err failed) db h = absurd (ground arith)

unknown-missing :
    (env : Env) (id : ℕ) (raw : Bytes) (event_id : ℕ) (db : Db)
    → apply_checkin env id raw event_id db ≡ err not_found
    → find (has_id id) db.attendees ≡ none
unfolding apply_checkin
unknown-missing env id raw event_id db h = elim (Option-cases (find (has_id id) db.attendees)) [
  | inl missing ↦ missing
  | inr (a, e) ↦ absurd (ground arith)
]

-- The answer to a code that verifies, and the attendees after it.
abbrev pub qr_answer : Env → ℕ → Bytes → Option Attendee → Outcome
qr_answer env event_id raw none = invalid_code
qr_answer env event_id raw (some a) = answer (a.event_id == event_id) (token_ok env a raw) a.status

abbrev pub qr_attendees : Env → ℕ → Bytes → Option Attendee → Db → List Attendee
qr_attendees env event_id raw none db = db.attendees
qr_attendees env event_id raw (some a) db =
    (after_scan env (a.event_id == event_id) (token_ok env a raw) a db).attendees

-- A code that verifies but names an attendee who is not in the table is an error, since no log row
-- may refer to it.
apply_qr-unknown :
    (env : Env) (org event_id id : ℕ) (raw : Bytes) (staff : ℕ) (db : Db)
    → find (has_id id) db.attendees ≡ none
    → apply_qr env org event_id id raw staff db ≡ err internal
unfolding apply_qr apply_checkin log_and_audit insert_tx
apply_qr-unknown env org event_id id raw staff db missing = ground arith

-- The scan of a code that verifies, if its transaction succeeds, has the outcome that the door's
-- rules give; the row is checked in exactly if the rules admit it, and one log row with the outcome
-- is added.
pub apply_qr-eq-ok :
    (env : Env) (org event_id id : ℕ) (raw : Bytes) (staff : ℕ) (db : Db) {r : ScanResult × Db}
    → apply_qr env org event_id id raw staff db ≡ ok r
    → (r.0.outcome ≡ qr_answer env event_id raw (find (has_id id) db.attendees))
      × (r.1.attendees ≡ qr_attendees env event_id raw (find (has_id id) db.attendees) db)
      × (r.1.checkin_logs ≡ db.checkin_logs ++ log_of event_id staff r.0 ∷ [])
unfolding apply_qr
apply_qr-eq-ok env org event_id id raw staff db {r = r} h =
    let (v, e, k) = bind-eq-ok (or_unknown (apply_checkin env id raw event_id db) db) _ h in
    let lg = log_of event_id staff (verdict_result qr id v.0) in
    let (c, e', k') = bind-eq-ok (log_and_audit env org lg v.1) _ k in
    let (same, logged) = log_and_audit-eq-ok env org lg v.1 e' in
    elim (or_unknown-cases (apply_checkin env id raw event_id db) db e) [
      | inl (w, e2, is) ↦
          let (a, found, said, wrote) = apply_checkin-eq-ok env id raw event_id db e2 in
          let rule = verdict_outcome-decided env (a.event_id == event_id) (token_ok env a raw) a in
          rw found (ground arith, ground arith, ground arith)
      | inr (e2, is) ↦
          rw (unknown-missing env id raw event_id db e2) (ground arith, ground arith, ground arith)
    ]

abbrev reverted_log : ℕ → ℕ → ℕ → CheckinLog
reverted_log event_id id staff = record {
  event_id = event_id;
  attendee_id = some id;
  scanned_by = staff;
  outcome = reverted;
  method = manual;
}

check_collections-unchanged :
    (env : Env) (id : ℕ) (wired : Bool) (db : Db) {r : Unit {0} × Db}
    → check_collections env id wired db ≡ ok r
    → r.1 ≡ db
unfolding has_active_collections
check_collections-unchanged env id true db h = ground arith
check_collections-unchanged env id false db h = ground arith

back_true : {b c : Bool} → c ≡ b → not b ≡ false → c ≡ true
back_true {b = true} e h = e
back_true {b = false} e h = cc

inside_status : (st : AttendeeStatus) → is_checked_in st ≡ true → st ≡ checked_in
inside_status checked_in h = refl
inside_status registered h = cc
inside_status cancelled h = cc

sent_back_written :
    (t : Attendee) (db db' : Db) (event_id : ℕ)
    → (t.event_id == event_id) ≡ true
    → is_checked_in t.status ≡ true
    → db' ≡ after_revert (t.event_id == event_id) t db
    → db' ≡ overwritten (sent_back t) db
sent_back_written t db db' event_id there inside wrote =
    let known : after_revert (t.event_id == event_id) t db ≡ overwritten (sent_back t) db =
      rw (there, inside) refl in
    wrote ∙ known

-- A revert that succeeds has found a checked-in attendee of its event; it puts that attendee's row
-- back to registered without a check-in time, leaves the others, and adds one log row.
pub revert-eq-ok :
    (env : Env) (org : ℕ) (event_ref : String) (ref : Bytes) (staff : ℕ) (db : Db)
    {r : ScanResult × Db}
    → revert env org event_ref ref staff db ≡ ok r
    → (event_id : ℕ) × (id : ℕ) × (a : Attendee) × (env.resolve_event org event_ref ≡ some event_id)
      × (env.parse_uuid ref ≡ some id)
      × (find (has_id id) db.attendees ≡ some a)
      × (a.event_id ≡ event_id)
      × (a.status ≡ checked_in)
      × (r.0.outcome ≡ reverted)
      × (r.1.attendees ≡ (overwritten (sent_back a) db).attendees)
      × (r.1.checkin_logs ≡ db.checkin_logs ++ log_of event_id staff r.0 ∷ [])
unfolding revert
revert-eq-ok env org event_ref ref staff db {r = r} h =
    let (event_id, resolved, h0) =
      found-eq-ok (env.resolve_event org event_ref) checkin_not_found _ db h in
    let (id, parsed, h1) = found-eq-ok (env.parse_uuid ref) attendee_not_found _ db h0 in
    let (u, checked, h2) =
      read-eq-ok (check_collections env id env.guard_wired) _ db
        (λ s r' k. check_collections-unchanged env id env.guard_wired s k) h1 in
    let (v, e3, h3) = bind-eq-ok (map_err lookup_err (revert_checkin env id event_id) db) _ h2 in
    let (inside, h4) = guard-eq-ok (not v.0.event_ok) attendee_not_found _ v.1 h3 in
    let (was_in, h5) = guard-eq-ok (not v.0.reverted) not_checked_in _ v.1 h4 in
    let res : ScanResult = record {
      outcome = reverted;
      method = manual;
      attendee_id = some id;
      checked_in_at = none;
    } in
    let lg = reverted_log event_id id staff in
    let (w, logged, view) = written-eq-ok (log_and_audit env org lg) res v.1 h5 in
    let (t, found, here, back, wrote) =
      revert_checkin-eq-ok env id event_id db
        (map_err-eq-ok lookup_err (revert_checkin env id event_id) db e3) in
    let (same, added) = log_and_audit-eq-ok env org lg v.1 {r = (w, r.1)} logged in
    let there : (t.event_id == event_id) ≡ true = back_true (sym here) inside in
    let in_before : is_checked_in t.status ≡ true =
      ap (λ x. x && is_checked_in t.status) (sym there) ∙ back_true (sym back) was_in in
    let written = sent_back_written t db v.1 event_id there in_before wrote in
    (
      event_id,
      id,
      t,
      resolved,
      parsed,
      found,
      (==_iff t.event_id event_id).0 there,
      inside_status t.status in_before,
      ap (λ x. x.outcome) view,
      same ∙ ap (λ x. x.attendees) written,
      added
          ∙ ap (λ x. x.checkin_logs ++ lg ∷ []) written
          ∙ ap (λ y. db.checkin_logs ++ log_of event_id staff y ∷ []) (sym view),
    )
