-- ===== src/Kits/Guarded.antt =====
-- internal/checkin/service/checkin_service.go, `Revert`, with the guard that
-- internal/kit/service/kit_service.go gives it, and the check-ins of
-- internal/attendee/service/attendee_service.go: who holds a kit stays checked in.
use rallya.Common.{
  ℕ, ◌≡◌, ◌∙◌, refl, inl, inr, String, Bytes, Bool, true, false, not, ◌&&◌, ◌||◌, none, some, List,
  [], ◌∷◌, arith, ok, find, update_first, Bool-cases, Option-cases, ◌==◌, All-map, All-zip,
  All-of_find-none, map_err-eq-ok, guard-eq-ok, found-eq-ok, read-eq-ok, bind-eq-ok, written-eq-ok,
  map_err, Reads,
}
use rallya.Model.Kit.{KitCollection, is_voided}
use rallya.Model.Attendee.{Attendee, checked_in, registered, is_checked_in, is_registered}
use rallya.Model.Checkin.{reverted, manual, CheckinLog}
use rallya.Store.{Db, Env}
use rallya.Attendees.Types.{ScanVerdict, RevertVerdict}
use rallya.Attendees.Rows.{has_id, update_attendee, get_for_update_row}
use rallya.Attendees.Door.{
  apply_checkin, apply_checkin_manual, revert_checkin, flip, unless_refused, verdict, token_ok,
}
use rallya.Checkin.Scan.{
  ScanResult, revert, has_active_collections, check_collections, log_and_audit, insert_tx, audit,
  checkin_not_found, attendee_not_found, not_checked_in, lookup_err, log_of,
}
use rallya.Kits.Inside.{HeldInside, Inside, IsInside-update}

-- The row that a revert rewrites.
abbrev taken_back : Attendee → Attendee
taken_back a = record a { status = registered; checked_in_at = none }

found_attendee :
    (id : ℕ) (a : Attendee) (rows : List Attendee) → find (has_id id) rows ≡ some a → a.id ≡ id
found_attendee id a [] h = cc
found_attendee id a (x ∷ rows) h = ground (arith, found_attendee id a rows)

revert_checkin-eq-ok :
    (env : Env) (id event_id : ℕ) (db : Db) {r : RevertVerdict × Db}
    → revert_checkin env id event_id db ≡ ok r
    → r.0.reverted ≡ true
    → (a : Attendee) × (find (has_id id) db.attendees ≡ some a)
      × (r.1.attendees ≡ update_first (has_id a.id) (λ _. taken_back a) db.attendees)
      × (r.1.collections ≡ db.collections)
      × (r.1.kits ≡ db.kits)
unfolding revert_checkin get_for_update_row update_attendee
revert_checkin-eq-ok env id event_id db {r = r} h did =
    elim (Option-cases (find (has_id id) db.attendees)) [
      | inl missing ↦ absurd (ground arith)
      | inr (a, found) ↦ elim (Bool-cases (a.event_id == event_id && is_checked_in a.status)) [
        | inl both ↦ (a, found, ground arith, ground arith, ground arith)
        | inr other ↦ absurd (ground arith)
      ]
    ]

log_and_audit-eq-ok :
    (env : Env) (org : ℕ) (lg : CheckinLog) (db : Db) {r : Unit {0} × Db}
    → log_and_audit env org lg db ≡ ok r
    → (r.1.attendees ≡ db.attendees) × (r.1.collections ≡ db.collections) × (r.1.kits ≡ db.kits)
unfolding log_and_audit insert_tx audit
log_and_audit-eq-ok env org lg db h = (ground arith, ground arith, ground arith)

abbrev holds : ℕ → KitCollection → Bool
holds id c = c.attendee_id == id && not (is_voided c.status)

check_collections-Reads : (env : Env) (id : ℕ) (b : Bool) → Reads (check_collections env id b)
unfolding has_active_collections
check_collections-Reads env id true s r h = ground arith
check_collections-Reads env id false s r h = ground arith

check_collections-clear :
    (env : Env) (id : ℕ) (db : Db) {u : Unit {0}}
    → check_collections env id true db ≡ ok (u, db)
    → find (holds id) db.collections ≡ none
unfolding has_active_collections
check_collections-clear env id db h = ground arith

-- What a revert that succeeds under the guard has checked and written.
pub revert-eq-ok :
    (env : Env) (org : ℕ) (event_ref : String) (ref : Bytes) (staff : ℕ) (db : Db)
    {r : ScanResult × Db}
    → env.guard_wired ≡ true
    → revert env org event_ref ref staff db ≡ ok r
    → (id : ℕ) × (a : Attendee) × (find (holds id) db.collections ≡ none)
      × (a.id ≡ id)
      × (r.1.attendees ≡ update_first (has_id a.id) (λ _. taken_back a) db.attendees)
      × (r.1.collections ≡ db.collections)
      × (r.1.kits ≡ db.kits)
unfolding revert
revert-eq-ok env org event_ref ref staff db {r = r} wired h =
    let (event, known, h0) =
      found-eq-ok (env.resolve_event org event_ref) checkin_not_found _ db h in
    let (id, named, h1) = found-eq-ok (env.parse_uuid ref) attendee_not_found _ db h0 in
    let (u, checked, h2) =
      read-eq-ok (check_collections env id env.guard_wired) _ db
        (check_collections-Reads env id env.guard_wired) h1 in
    let (v, e3, h3) = bind-eq-ok (map_err lookup_err (revert_checkin env id event) db) _ h2 in
    let (here, h4) = guard-eq-ok (not v.0.event_ok) attendee_not_found _ v.1 h3 in
    let (did, h5) = guard-eq-ok (not v.0.reverted) not_checked_in _ v.1 h4 in
    let res : ScanResult = record {
      outcome = reverted;
      method = manual;
      attendee_id = some id;
      checked_in_at = none;
    } in
    let (w, logged, view) =
      written-eq-ok (log_and_audit env org (log_of event staff res)) res v.1 h5 in
    let guarded : check_collections env id true db ≡ ok (u, db) = rw wired at checked in
    let none_held = check_collections-clear env id db guarded in
    let (a, found, people, handouts, kits) =
      revert_checkin-eq-ok env id event db
        (map_err-eq-ok lookup_err (revert_checkin env id event) db e3) (ground arith) in
    let (people', handouts', kits') =
      log_and_audit-eq-ok env org (log_of event staff res) v.1 {r = (w, r.1)} logged in
    let same = found_attendee id a db.attendees found in
    (id, a, none_held, same, people' ∙ people, handouts' ∙ handouts, kits' ∙ kits)

kept_apart :
    (a : Attendee) (id : ℕ) (c : KitCollection)
    → a.id ≡ id
    → holds id c ≡ false
    → is_voided c.status ≡ false
    → (a.id == c.attendee_id) ≡ true
    → ⊥
kept_apart a id c same free live mine = ground arith

-- Kits against check-in: if whoever holds a kit that is not voided is checked in, that still holds
-- after a check-in is reverted successfully, when the kit domain's guard is set.
pub revert-Inside :
    (env : Env) (org : ℕ) (event_ref : String) (ref : Bytes) (staff : ℕ) (db : Db)
    {r : ScanResult × Db}
    → env.guard_wired ≡ true
    → revert env org event_ref ref staff db ≡ ok r
    → Inside db
    → Inside r.1
revert-Inside env org event_ref ref staff db wired h inside =
    let (id, a, none_held, same, people, handouts, kits) =
      revert-eq-ok env org event_ref ref staff db wired h in
    let others : (c : KitCollection)
        → holds id c ≡ false
        → HeldInside db.attendees c
        → HeldInside (update_first (has_id a.id) (λ _. taken_back a) db.attendees) c =
      λ c free held live.
        IsInside-update (taken_back a) db.attendees c.attendee_id
          (λ mine. absurd (kept_apart a id c same free live mine)) (held live) in
    rw (people, handouts)
      (All-zip (λ c. holds id c ≡ false) (HeldInside db.attendees)
        (HeldInside (update_first (has_id a.id) (λ _. taken_back a) db.attendees)) db.collections
        others (All-of_find-none (holds id) db.collections none_held) inside)

-- A check-in rewrites the row that it flips, and no other table.
pub flip-eq-ok :
    (env : Env) (a : Attendee) (v : ScanVerdict) (db : Db) {r : ScanVerdict × Db}
    → flip env a v db ≡ ok r
    → (r.1.attendees
        ≡ update_first
            (has_id a.id)
            (λ _. record a { status = checked_in; checked_in_at = some env.now })
            db.attendees)
      × (r.1.collections ≡ db.collections)
      × (r.1.kits ≡ db.kits)
unfolding flip update_attendee
flip-eq-ok env a v db h = (ground arith, ground arith, ground arith)

flip-Inside :
    (env : Env) (a : Attendee) (v : ScanVerdict) (db : Db) {r : ScanVerdict × Db}
    → flip env a v db ≡ ok r
    → Inside db
    → Inside r.1
flip-Inside env a v db h inside =
    let u = record a { status = checked_in; checked_in_at = some env.now } in
    let (people, handouts, kits) = flip-eq-ok env a v db h in
    rw (people, handouts)
      (All-map (HeldInside db.attendees)
        (HeldInside (update_first (has_id a.id) (λ _. u) db.attendees)) db.collections
        (λ c held live. IsInside-update u db.attendees c.attendee_id (λ _. refl) (held live))
        inside)

pub get_for_update_row-Reads : (env : Env) (id : ℕ) → Reads (get_for_update_row env id)
unfolding get_for_update_row
get_for_update_row-Reads env id s r h = ground arith

unless_refused-Inside :
    (b : Bool) (env : Env) (a : Attendee) (v : ScanVerdict) (db : Db) {r : ScanVerdict × Db}
    → unless_refused b v (flip env a v) db ≡ ok r
    → Inside db
    → Inside r.1
unless_refused-Inside true env a v db {r = r} h inside =
    let same : r.1 ≡ db = ground arith in rw same inside
unless_refused-Inside false env a v db h inside = flip-Inside env a v db h inside

pub apply_checkin-Inside :
    (env : Env) (id : ℕ) (raw : Bytes) (event_id : ℕ) (db : Db) {r : ScanVerdict × Db}
    → apply_checkin env id raw event_id db ≡ ok r
    → Inside db
    → Inside r.1
unfolding apply_checkin
apply_checkin-Inside env id raw event_id db h inside =
    let (a, e, h1) =
      read-eq-ok (get_for_update_row env id) _ db (get_for_update_row-Reads env id) h in
    let v = verdict (a.event_id == event_id) (token_ok env a raw) a.status in
    unless_refused-Inside (not v.event_ok || not v.token_ok || not (is_registered a.status)) env a v
      db h1 inside

pub apply_checkin_manual-Inside :
    (env : Env) (id event_id : ℕ) (db : Db) {r : ScanVerdict × Db}
    → apply_checkin_manual env id event_id db ≡ ok r
    → Inside db
    → Inside r.1
unfolding apply_checkin_manual
apply_checkin_manual-Inside env id event_id db h inside =
    let (a, e, h1) =
      read-eq-ok (get_for_update_row env id) _ db (get_for_update_row-Reads env id) h in
    let v = verdict (a.event_id == event_id) true a.status in
    unless_refused-Inside (not v.event_ok || not (is_registered a.status)) env a v db h1 inside
