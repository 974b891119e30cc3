-- ===== src/Checkin/Scan.antt =====
-- internal/checkin/service/checkin_service.go.
use rallya.Common.{
  ℕ, String, Bytes, is_nil, Bool, true, false, not, Option, none, some, List, [], ◌∷◌, ◌++◌, length,
  ltb, ◌==◌, Tx, Run, Result, ok, err, ◌>>=◌, ◌>>◌, transaction, proceed, raise_if, map_err,
  or_raise, modify, pure, if◌then◌else◌, find, is_some, some_and, ◌&&◌, gets,
}
use rallya.Model.Attendee.{
  Attendee, AttendeeStatus, registered, checked_in, cancelled, is_registered, is_checked_in,
}
use rallya.Model.Checkin.{
  Outcome, Method, CheckinLog, checked_in as outcome_checked_in, already_checked_in, invalid_code,
  cancelled as outcome_cancelled, wrong_event, reverted, qr, manual,
}
use rallya.Model.Kit.{is_voided}
use rallya.Store.{Db, DbError, Env, not_found, call, emit_tx, insert_log, has_active}
use rallya.Attendees.Types.{ScanVerdict}
use rallya.Attendees.Payload.{verify_payload, verified, refused, Verified}
use rallya.Attendees.Door.{apply_checkin, apply_checkin_manual, revert_checkin}
use rallya.Attendees.Rows.{has_id, count_by_status}

-- errors.go
pub data CheckinError : Type 0 where
  checkin_not_found batch_too_large qr_secret_unset attendee_not_found : CheckinError
  not_checked_in collections_outstanding internal : CheckinError

abbrev pub call_err : DbError → CheckinError
call_err e = internal

abbrev pub lookup_err : DbError → CheckinError
lookup_err not_found = attendee_not_found
lookup_err _ = internal

-- `MaxBatchSize`
abbrev pub max_batch_size : ℕ
max_batch_size = 50

pub record ScanResult : Type 0 where
  pub outcome : Outcome
  pub method : Method
  pub attendee_id : Option ℕ
  pub checked_in_at : Option ℕ

-- The audit action: "checkin." and the outcome in lower case.
abbrev pub audit_action : Outcome → String
audit_action outcome_checked_in = "checkin.checked_in"
audit_action already_checked_in = "checkin.already_checked_in"
audit_action invalid_code = "checkin.invalid_code"
audit_action outcome_cancelled = "checkin.cancelled"
audit_action wrong_event = "checkin.wrong_event"
audit_action reverted = "checkin.reverted"

-- The row that a log refers to is there.
abbrev pub refers : CheckinLog → List Attendee → Bool
refers lg rows = not (some_and lg.attendee_id (λ id. not (is_some (find (has_id id) rows))))

-- `InsertTx` of the log repository, with the foreign key of migrations/000016.
unfoldable pub insert_tx : Env → CheckinLog → Tx Db CheckinError (Unit {0})
insert_tx env lg = do
  map_err call_err (call env insert_log)
  known ← gets (λ db. refers lg db.attendees)
  raise_if (not known) internal
  modify (λ db. record db { checkin_logs = db.checkin_logs ++ lg ∷ [] })

-- `audit`
unfoldable pub audit : Env → ℕ → CheckinLog → Tx Db CheckinError (Unit {0})
audit env org lg = emit_tx env internal (record {
  org_id = some org;
  actor_id = some lg.scanned_by;
  action = audit_action lg.outcome;
  object_type = "checkin_log";
  object_id = none;
})

-- `logAndAudit`
unfoldable pub log_and_audit : Env → ℕ → CheckinLog → Tx Db CheckinError (Unit {0})
unfolding insert_tx audit
log_and_audit env org lg = do insert_tx env lg; audit env org lg

-- `verdictOutcome`
abbrev pub status_outcome : AttendeeStatus → Outcome
status_outcome checked_in = already_checked_in
status_outcome cancelled = outcome_cancelled
status_outcome registered = invalid_code

unfoldable pub verdict_outcome : ScanVerdict → Outcome
verdict_outcome v =
    if not v.token_ok
    then invalid_code
    else if not v.event_ok
    then wrong_event
    else if v.flipped
    then outcome_checked_in
    else status_outcome v.status

-- A verdict or, for an unknown row, none.
abbrev pub or_unknown :
    Result DbError (ScanVerdict × Db) → Db → Result CheckinError (Option ScanVerdict × Db)
or_unknown (ok r) db = ok (some r.0, r.1)
or_unknown (err not_found) db = ok (none, db)
or_unknown (err e) db = err internal

abbrev pub verdict_result : Method → ℕ → Option ScanVerdict → ScanResult
verdict_result m id none = record {
  outcome = invalid_code;
  method = m;
  attendee_id = some id;
  checked_in_at = none;
}
verdict_result m id (some v) = record {
  outcome = verdict_outcome v;
  method = m;
  attendee_id = some id;
  checked_in_at = v.checked_in_at;
}

abbrev pub log_of : ℕ → ℕ → ScanResult → CheckinLog
log_of event_id staff r = record {
  event_id = event_id;
  attendee_id = r.attendee_id;
  scanned_by = staff;
  outcome = r.outcome;
  method = r.method;
}

-- The transaction of `scanQR`.
unfoldable pub apply_qr : Env → ℕ → ℕ → ℕ → Bytes → ℕ → Tx Db CheckinError ScanResult
unfolding apply_checkin log_and_audit verdict_outcome
apply_qr env org event_id id raw staff = do
  v ← λ db. or_unknown (apply_checkin env id raw event_id db) db
  let r = verdict_result qr id v
  log_and_audit env org (log_of event_id staff r)
  pure r

abbrev pub unscannable : ScanResult
unscannable = record {
  outcome = invalid_code;
  method = qr;
  attendee_id = none;
  checked_in_at = none;
}

-- The code does not verify: the log row and the audit entry are two writes of their own.
unfoldable pub log_unscannable : Env → ℕ → ℕ → ℕ → Run Db CheckinError ScanResult
unfolding insert_tx audit
log_unscannable env org event_id staff db =
    let lg = log_of event_id staff unscannable in
    proceed (transaction (insert_tx env lg) db)
      (λ _ db1. proceed (transaction (audit env org lg) db1) (λ _ db2. (ok unscannable, db2)))

abbrev pub scan_verified : Env → ℕ → ℕ → ℕ → Verified → Run Db CheckinError ScanResult
scan_verified env org event_id staff (refused e) = log_unscannable env org event_id staff
scan_verified env org event_id staff (verified p) =
    transaction (apply_qr env org event_id p.attendee_id p.raw_token staff)

abbrev pub scan_in : Env → ℕ → Bytes → ℕ → Option ℕ → Run Db CheckinError ScanResult
scan_in env org code staff none db = (err checkin_not_found, db)
scan_in env org code staff (some event_id) db =
    scan_verified env org event_id staff (verify_payload env code) db

-- `scanQR`
unfoldable pub scan_qr : Env → ℕ → String → Bytes → ℕ → Run Db CheckinError ScanResult
unfolding log_unscannable apply_qr verify_payload
scan_qr env org event_ref code staff db =
    if env.secret_set
    then scan_in env org code staff (env.resolve_event org event_ref) db
    else (err qr_secret_unset, db)

-- `scanManual`
unfoldable pub scan_manual : Env → ℕ → String → Bytes → ℕ → Tx Db CheckinError ScanResult
unfolding apply_checkin_manual log_and_audit verdict_outcome
scan_manual env org event_ref ref staff = do
  event_id ← or_raise (env.resolve_event org event_ref) checkin_not_found
  id ← or_raise (env.parse_uuid ref) attendee_not_found
  v ← map_err lookup_err (apply_checkin_manual env id event_id)
  let r = verdict_result manual id (some v)
  log_and_audit env org (log_of event_id staff r)
  pure r

-- `Scan`
unfoldable pub scan : Env → ℕ → String → Bytes → Bytes → ℕ → Run Db CheckinError ScanResult
unfolding scan_qr scan_manual
scan env org event_ref code ref staff =
    if is_nil code
    then transaction (scan_manual env org event_ref ref staff)
    else scan_qr env org event_ref code staff

-- The loop of `ScanBatch`: the first error ends it, and what was scanned stays scanned.
unfoldable pub scan_codes :
    Env → ℕ → String → List Bytes → ℕ → Run Db CheckinError (List ScanResult)
scan_codes env org event_ref [] staff db = (ok [], db)
scan_codes env org event_ref (c ∷ cs) staff db =
    proceed (scan_qr env org event_ref c staff db)
      (λ r db1. proceed (scan_codes env org event_ref cs staff db1) (λ rs db2. (ok (r ∷ rs), db2)))

-- `ScanBatch`
unfoldable pub scan_batch :
    Env → ℕ → String → List Bytes → ℕ → Run Db CheckinError (List ScanResult)
unfolding scan_codes
scan_batch env org event_ref cs staff db =
    if ltb max_batch_size (length cs)
    then (err batch_too_large, db)
    else scan_codes env org event_ref cs staff db

-- `HasActiveCollections` of the kit domain, if it is wired.
unfoldable pub has_active_collections : Env → ℕ → Tx Db CheckinError Bool
has_active_collections env id = do
  map_err call_err (call env has_active)
  gets (λ db. is_some (find (λ c. c.attendee_id == id && not (is_voided c.status)) db.collections))

abbrev pub check_collections : Env → ℕ → Bool → Tx Db CheckinError (Unit {0})
check_collections env id false = pure tt
check_collections env id true = do
  has ← has_active_collections env id
  raise_if has collections_outstanding

-- `Revert`
unfoldable pub revert : Env → ℕ → String → Bytes → ℕ → Tx Db CheckinError ScanResult
unfolding has_active_collections revert_checkin log_and_audit
revert env org event_ref ref staff = do
  event_id ← or_raise (env.resolve_event org event_ref) checkin_not_found
  id ← or_raise (env.parse_uuid ref) attendee_not_found
  check_collections env id env.guard_wired
  v ← map_err lookup_err (revert_checkin env id event_id)
  raise_if (not v.event_ok) attendee_not_found
  raise_if (not v.reverted) not_checked_in
  let r : ScanResult = record {
    outcome = reverted;
    method = manual;
    attendee_id = some id;
    checked_in_at = none;
  }
  log_and_audit env org (log_of event_id staff r)
  pure r

abbrev pub is_cancelled : AttendeeStatus → Bool
is_cancelled cancelled = true
is_cancelled _ = false

pub record Tally : Type 0 where
  pub registered : ℕ
  pub checked_in : ℕ
  pub cancelled : ℕ

-- `Stats`
unfoldable pub stats : Env → ℕ → String → Tx Db CheckinError Tally
unfolding count_by_status
stats env org event_ref = do
  event_id ← or_raise (env.resolve_event org event_ref) checkin_not_found
  r ← map_err call_err (count_by_status env event_id is_registered)
  i ← map_err call_err (count_by_status env event_id is_checked_in)
  c ← map_err call_err (count_by_status env event_id is_cancelled)
  pure (record { registered = r; checked_in = i; cancelled = c })
