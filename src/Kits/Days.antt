-- ===== src/Kits/Days.antt =====
-- A day at the door: kits (internal/kit), check-ins and their reverts (internal/checkin,
-- internal/attendee) and cancelled orders, in any order.
use rallya.Common.{ℕ, ◌≡◌, String, Bytes, Bool, true, not, ok, read-eq-ok, ◌||◌, ◌==◌, arith}
use rallya.Model.Kit.{collected, voided, is_voided, is_pending}
use rallya.Model.Attendee.{Attendee, is_registered}
use rallya.Store.{Db, Env}
use rallya.Attendees.Types.{ScanVerdict}
use rallya.Attendees.Rows.{cancel_for_order as cancel_rows, get_for_update_row}
use rallya.Attendees.Door.{
  apply_checkin, apply_checkin_manual, flip, unless_refused, verdict, token_ok,
}
use rallya.Checkin.Scan.{ScanResult, revert}
use rallya.Kits.Types.{CollectionView}
use rallya.Kits.Handout.{collect, mark_collected, void}
use rallya.Kits.Covered.{
  Covered, collect-Covered, mark_collected-Covered, void-Covered, pending_is_live, not_voided,
}
use rallya.Kits.Inside.{Inside, collect-Inside, transition-Inside, cancel_rows-Inside}
use rallya.Kits.Guarded.{
  revert-eq-ok, revert-Inside, apply_checkin-Inside, apply_checkin_manual-Inside, flip-eq-ok,
  get_for_update_row-Reads,
}

-- One successful operation. The guard of a revert is set.
pub data DoorStep (db : Db) : Db → Type 0 where
  handed :
      (env : Env) (org : ℕ) (event_ref kit_ref attendee_ref : String) (reserve : Bool)
      (key : String) (staff : ℕ) (r : CollectionView × Db)
      → collect env org event_ref kit_ref attendee_ref reserve key staff db ≡ ok r
      → DoorStep db r.1
  marked :
      (env : Env) (org : ℕ) (event_ref ref : String) (staff : ℕ) (r : CollectionView × Db)
      → mark_collected env org event_ref ref staff db ≡ ok r
      → DoorStep db r.1
  voided_one :
      (env : Env) (org : ℕ) (event_ref ref : String) (staff : ℕ) (r : CollectionView × Db)
      → void env org event_ref ref staff db ≡ ok r
      → DoorStep db r.1
  scanned :
      (env : Env) (id : ℕ) (raw : Bytes) (event_id : ℕ) (r : ScanVerdict × Db)
      → apply_checkin env id raw event_id db ≡ ok r
      → DoorStep db r.1
  scanned_by_hand :
      (env : Env) (id event_id : ℕ) (r : ScanVerdict × Db)
      → apply_checkin_manual env id event_id db ≡ ok r
      → DoorStep db r.1
  sent_back_one :
      (env : Env) (org : ℕ) (event_ref : String) (ref : Bytes) (staff : ℕ) (r : ScanResult × Db)
      → env.guard_wired ≡ true
      → revert env org event_ref ref staff db ≡ ok r
      → DoorStep db r.1
  units_cancelled :
      (env : Env) (order : ℕ) (r : Unit {0} × Db)
      → cancel_rows env order db ≡ ok r
      → DoorStep db r.1

-- Successful operations up to a last store.
pub data DoorSteps (last : Db) : Db → Type 0 where
  stay : DoorSteps last last
  go : (db mid : Db) → DoorStep db mid → DoorSteps last mid → DoorSteps last db

abbrev pub DoorSound : Db → Type 0
DoorSound db = Covered db × Inside db

cancel_rows-Covered :
    (env : Env) (order : ℕ) (db : Db) {r : Unit {0} × Db}
    → cancel_rows env order db ≡ ok r
    → Covered db
    → Covered r.1
unfolding cancel_rows
cancel_rows-Covered env order db {r = r} h covered =
    let kits : r.1.kits ≡ db.kits = ground arith in
    let handouts : r.1.collections ≡ db.collections = ground arith in rw (kits, handouts) covered

revert-Covered :
    (env : Env) (org : ℕ) (event_ref : String) (ref : Bytes) (staff : ℕ) (db : Db)
    {r : ScanResult × Db}
    → env.guard_wired ≡ true
    → revert env org event_ref ref staff db ≡ ok r
    → Covered db
    → Covered r.1
revert-Covered env org event_ref ref staff db wired h covered =
    let (id, a, none_held, same, people, handouts, kits) =
      revert-eq-ok env org event_ref ref staff db wired h in
    rw (kits, handouts) covered

unless_refused-Covered :
    (b : Bool) (env : Env) (a : Attendee) (v : ScanVerdict) (db : Db) {r : ScanVerdict × Db}
    → unless_refused b v (flip env a v) db ≡ ok r
    → Covered db
    → Covered r.1
unless_refused-Covered true env a v db {r = r} h covered =
    let same : r.1 ≡ db = ground arith in rw same covered
unless_refused-Covered Bool.false env a v db h covered =
    let (people, handouts, kits) = flip-eq-ok env a v db h in rw (kits, handouts) covered

apply_checkin-Covered :
    (env : Env) (id : ℕ) (raw : Bytes) (event_id : ℕ) (db : Db) {r : ScanVerdict × Db}
    → apply_checkin env id raw event_id db ≡ ok r
    → Covered db
    → Covered r.1
unfolding apply_checkin
apply_checkin-Covered env id raw event_id db h covered =
    let (a, e, h1) =
      read-eq-ok (get_for_update_row env id) _ db (get_for_update_row-Reads env id) h in
    let v = verdict (a.event_id == event_id) (token_ok env a raw) a.status in
    unless_refused-Covered (not v.event_ok || not v.token_ok || not (is_registered a.status)) env a
      v db h1 covered

apply_checkin_manual-Covered :
    (env : Env) (id event_id : ℕ) (db : Db) {r : ScanVerdict × Db}
    → apply_checkin_manual env id event_id db ≡ ok r
    → Covered db
    → Covered r.1
unfolding apply_checkin_manual
apply_checkin_manual-Covered env id event_id db h covered =
    let (a, e, h1) =
      read-eq-ok (get_for_update_row env id) _ db (get_for_update_row-Reads env id) h in
    let v = verdict (a.event_id == event_id) true a.status in
    unless_refused-Covered (not v.event_ok || not (is_registered a.status)) env a v db h1 covered

step-Sound : (db last : Db) → DoorStep db last → DoorSound db → DoorSound last
unfolding mark_collected void
step-Sound db last (handed env org event_ref kit_ref attendee_ref reserve key staff r h)
      (covered, inside) =
    (
      collect-Covered env org event_ref kit_ref attendee_ref reserve key staff db h covered,
      collect-Inside env org event_ref kit_ref attendee_ref reserve key staff db h inside,
    )
step-Sound db last (marked env org event_ref ref staff r h) (covered, inside) = (
  mark_collected-Covered env org event_ref ref staff db h covered,
  transition-Inside env org event_ref ref staff collected "kit.collected" is_pending db
      pending_is_live h inside,
)
step-Sound db last (voided_one env org event_ref ref staff r h) (covered, inside) = (
  void-Covered env org event_ref ref staff db h covered,
  transition-Inside env org event_ref ref staff voided "kit.voided" (λ st. not (is_voided st)) db
      not_voided h inside,
)
step-Sound db last (scanned env id raw event_id r h) (covered, inside) = (
  apply_checkin-Covered env id raw event_id db h covered,
  apply_checkin-Inside env id raw event_id db h inside,
)
step-Sound db last (scanned_by_hand env id event_id r h) (covered, inside) = (
  apply_checkin_manual-Covered env id event_id db h covered,
  apply_checkin_manual-Inside env id event_id db h inside,
)
step-Sound db last (sent_back_one env org event_ref ref staff r wired h) (covered, inside) = (
  revert-Covered env org event_ref ref staff db wired h covered,
  revert-Inside env org event_ref ref staff db wired h inside,
)
step-Sound db last (units_cancelled env order r h) (covered, inside) =
    (cancel_rows-Covered env order db h covered, cancel_rows-Inside env order db h inside)

-- A day at the door: start where the handouts of every kit that are not voided fit its quantity,
-- kits have distinct keys, and whoever holds a kit is checked in. After any sequence of successful
-- collections, markings, voidings, check-ins, guarded reverts and cancellations of the units of an
-- order, in any order and by any requests, the same holds.
pub door_day-Sound : (last db : Db) → DoorSteps last db → DoorSound db → DoorSound last
door_day-Sound last db stay sound = sound
door_day-Sound last db (go start mid first rest) sound =
    door_day-Sound last mid rest (step-Sound db mid first sound)
