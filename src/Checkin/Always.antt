-- ===== src/Checkin/Always.antt =====
-- internal/checkin/service/checkin_service.go: the check-in times after scans and reverts.
use rallya.Common.{
  ℕ, String, Bytes, is_nil, ◌≡◌, refl, Bool, true, false, ◌==◌, ltb, length, some, none, Option,
  List, [], ◌∷◌, arith, Result, ok, err, commit, proceed, transaction, find, Bool-cases, inl, inr,
  if◌then◌else◌, All,
}
use rallya.Model.Attendee.{Attendee}
use rallya.Model.Checkin.{CheckinLog}
use rallya.Store.{Db, Env}
use rallya.Attendees.Rows.{has_id}
use rallya.Attendees.Payload.{verify_payload, verified, refused, Verified}
use rallya.Attendees.Door.{token_ok}
use rallya.Attendees.Stamps.{IsStamped, Stamped, after_scan-Stamped, overwritten-Stamped, sent_back}
use rallya.Checkin.Scan.{
  CheckinError, ScanResult, scan, scan_qr, scan_manual, scan_in, scan_verified, scan_codes,
  scan_batch, apply_qr, log_unscannable, insert_tx, audit, log_of, unscannable, max_batch_size,
  qr_secret_unset, revert,
}
use rallya.Checkin.Trail.{scan_manual-eq-ok, apply_qr-eq-ok, qr_attendees, revert-eq-ok}

-- A property of the store that a transaction keeps when it commits.
committed :
    {A : Type 0} (P : Db → Type 0) (x : Result CheckinError (A × Db)) (db : Db)
    → P db
    → ((r : A × Db) → x ≡ ok r → P r.1)
    → P (commit x db).1
committed P (ok r) db before after = after r refl
committed P (err e) db before after = before

proceeded :
    {A B : Type 0} (P : Db → Type 0) (x : Result CheckinError A × Db)
    (f : A → Db → Result CheckinError B × Db)
    → P x.1
    → ((a : A) (db : Db) → P db → P (f a db).1)
    → P (proceed x f).1
proceeded P (ok a, db) f h k = k a db h
proceeded P (err e, db) f h k = h

chosen :
    {A : Type 0} (P : Db → Type 0) (b : Bool) (x y : A × Db)
    → P x.1
    → P y.1
    → P (if b then x else y).1
chosen P true x y h k = h
chosen P false x y h k = k

scan_manual-Stamped :
    (env : Env) (org : ℕ) (event_ref : String) (ref : Bytes) (staff : ℕ) (db : Db)
    {r : ScanResult × Db}
    → Stamped db
    → scan_manual env org event_ref ref staff db ≡ ok r
    → Stamped r.1
scan_manual-Stamped env org event_ref ref staff db stamped h =
    let (e, i, a, re, pa, found, said, wrote, logged) =
      scan_manual-eq-ok env org event_ref ref staff db h in
    rw wrote (after_scan-Stamped env (a.event_id == e) true a db stamped)

qr_attendees-All :
    (env : Env) (event_id : ℕ) (raw : Bytes) (row : Option Attendee) (db : Db)
    → Stamped db
    → All IsStamped (qr_attendees env event_id raw row db)
qr_attendees-All env event_id raw none db stamped = stamped
qr_attendees-All env event_id raw (some a) db stamped =
    after_scan-Stamped env (a.event_id == event_id) (token_ok env a raw) a db stamped

apply_qr-Stamped :
    (env : Env) (org event_id id : ℕ) (raw : Bytes) (staff : ℕ) (db : Db) {r : ScanResult × Db}
    → Stamped db
    → apply_qr env org event_id id raw staff db ≡ ok r
    → Stamped r.1
apply_qr-Stamped env org event_id id raw staff db stamped h =
    let (said, wrote, logged) = apply_qr-eq-ok env org event_id id raw staff db h in
    rw wrote (qr_attendees-All env event_id raw (find (has_id id) db.attendees) db stamped)

insert_tx-attendees :
    (env : Env) (lg : CheckinLog) (db : Db) {r : Unit {0} × Db}
    → insert_tx env lg db ≡ ok r
    → r.1.attendees ≡ db.attendees
unfolding insert_tx
insert_tx-attendees env lg db h = ground arith

audit-attendees :
    (env : Env) (org : ℕ) (lg : CheckinLog) (db : Db) {r : Unit {0} × Db}
    → audit env org lg db ≡ ok r
    → r.1.attendees ≡ db.attendees
unfolding audit
audit-attendees env org lg db h = ground arith

log_unscannable-Stamped :
    (env : Env) (org event_id staff : ℕ) (db : Db)
    → Stamped db
    → Stamped (log_unscannable env org event_id staff db).1
unfolding log_unscannable
log_unscannable-Stamped env org event_id staff db stamped =
    let lg = log_of event_id staff unscannable in
    proceeded Stamped (transaction (insert_tx env lg) db)
      (λ _ db1. proceed (transaction (audit env org lg) db1) (λ _ db2. (ok unscannable, db2)))
      (committed Stamped (insert_tx env lg db) db stamped
        (λ r h. rw (insert_tx-attendees env lg db h) stamped))
      (λ _ db1 stamped1.
        proceeded Stamped (transaction (audit env org lg) db1) (λ _ db2. (ok unscannable, db2))
          (committed Stamped (audit env org lg db1) db1 stamped1
            (λ r h. rw (audit-attendees env org lg db1 h) stamped1))
          (λ _ db2 stamped2. stamped2))

scan_verified-Stamped :
    (env : Env) (org event_id staff : ℕ) (v : Verified) (db : Db)
    → Stamped db
    → Stamped (scan_verified env org event_id staff v db).1
scan_verified-Stamped env org event_id staff (refused e) db stamped =
    log_unscannable-Stamped env org event_id staff db stamped
scan_verified-Stamped env org event_id staff (verified p) db stamped =
    committed Stamped (apply_qr env org event_id p.attendee_id p.raw_token staff db) db stamped
      (λ r h. apply_qr-Stamped env org event_id p.attendee_id p.raw_token staff db stamped h)

scan_in-Stamped :
    (env : Env) (org : ℕ) (code : Bytes) (staff : ℕ) (event : Option ℕ) (db : Db)
    → Stamped db
    → Stamped (scan_in env org code staff event db).1
scan_in-Stamped env org code staff none db stamped = stamped
scan_in-Stamped env org code staff (some e) db stamped =
    scan_verified-Stamped env org e staff (verify_payload env code) db stamped

scan_qr-Stamped :
    (env : Env) (org : ℕ) (event_ref : String) (code : Bytes) (staff : ℕ) (db : Db)
    → Stamped db
    → Stamped (scan_qr env org event_ref code staff db).1
unfolding scan_qr
scan_qr-Stamped env org event_ref code staff db stamped =
    chosen Stamped env.secret_set (scan_in env org code staff (env.resolve_event org event_ref) db)
      (err qr_secret_unset, db)
      (scan_in-Stamped env org code staff (env.resolve_event org event_ref) db stamped) stamped

-- If the check-in time of every attendee is set exactly while the attendee is checked in, it still
-- is after every scan, by code or by hand, whatever it answers and whichever of its database calls
-- fail.
pub scan-Stamped :
    (env : Env) (org : ℕ) (event_ref : String) (code ref : Bytes) (staff : ℕ) (db : Db)
    → Stamped db
    → Stamped (scan env org event_ref code ref staff db).1
unfolding scan
scan-Stamped env org event_ref code ref staff db stamped = elim (Bool-cases (is_nil code)) [
  | inl by_hand ↦ rw by_hand (
      committed Stamped (scan_manual env org event_ref ref staff db) db stamped
        (λ r h. scan_manual-Stamped env org event_ref ref staff db stamped h))
  | inr by_code ↦ rw by_code (scan_qr-Stamped env org event_ref code staff db stamped)
]

scan_codes-Stamped :
    (env : Env) (org : ℕ) (event_ref : String) (cs : List Bytes) (staff : ℕ) (db : Db)
    → Stamped db
    → Stamped (scan_codes env org event_ref cs staff db).1
unfolding scan_codes
scan_codes-Stamped env org event_ref [] staff db stamped = stamped
scan_codes-Stamped env org event_ref (c ∷ cs) staff db stamped =
    proceeded Stamped (scan_qr env org event_ref c staff db)
      (λ r db1. proceed (scan_codes env org event_ref cs staff db1) (λ rs db2. (ok (r ∷ rs), db2)))
      (scan_qr-Stamped env org event_ref c staff db stamped)
      (λ r db1 stamped1.
        proceeded Stamped (scan_codes env org event_ref cs staff db1) (λ rs db2. (ok (r ∷ rs), db2))
          (scan_codes-Stamped env org event_ref cs staff db1 stamped1)
          (λ rs db2 stamped2. stamped2))

-- The check-in times stay in step with the statuses over a batch of scans, also when an error ends
-- it in the middle.
pub scan_batch-Stamped :
    (env : Env) (org : ℕ) (event_ref : String) (cs : List Bytes) (staff : ℕ) (db : Db)
    → Stamped db
    → Stamped (scan_batch env org event_ref cs staff db).1
unfolding scan_batch
scan_batch-Stamped env org event_ref cs staff db stamped =
    elim (Bool-cases (ltb max_batch_size (length cs))) [
      | inl long ↦ rw long stamped
      | inr short ↦ rw short (scan_codes-Stamped env org event_ref cs staff db stamped)
    ]

-- The check-in times stay in step with the statuses over a revert that succeeds.
pub revert-Stamped :
    (env : Env) (org : ℕ) (event_ref : String) (ref : Bytes) (staff : ℕ) (db : Db)
    {r : ScanResult × Db}
    → Stamped db
    → revert env org event_ref ref staff db ≡ ok r
    → Stamped r.1
revert-Stamped env org event_ref ref staff db stamped h =
    let (e, i, a, re, pa, found, at, was_in, said, wrote, logged) =
      revert-eq-ok env org event_ref ref staff db h in
    rw wrote (overwritten-Stamped (sent_back a) db refl stamped)
