-- ===== src/Kits/Inside.antt =====
-- internal/kit/service/kit_service.go with internal/checkin/service/checkin_service.go and
-- internal/attendee/service: who holds a kit, and where they are.
use rallya.Common.{
  ℕ, ◌≡◌, ◌∙◌, refl, inl, inr, String, Bool, true, false, Option, none, some, List, [], ◌∷◌, map,
  arith, ok, find, update_first, Bool-cases, Option-cases, ◌==◌, All, All-map, All-append, All-find,
  All-update_found,
}
use rallya.Model.Kit.{Kit, KitCollection, CollectionStatus, collected, voided, pending, is_voided}
use rallya.Model.Attendee.{Attendee, checked_in}
use rallya.Store.{Db, Env}
use rallya.Attendees.Rows.{has_id, cancel_row, get_attendee_by_id, cancel_for_order as cancel_rows}
use rallya.Attendees.Door.{attendee_status_in_event}
use rallya.Kits.Types.{CollectionView}
use rallya.Kits.Rows.{is_row}
use rallya.Kits.Handout.{collect, hand_out, new_collection, moved, transition}
use rallya.Kits.Covered.{moved-id, found_row}
use rallya.Kits.Steps.{collect-eq-ok, hand_out-eq-ok, transition-eq-ok}

-- The row of the attendee says CHECKED_IN.
abbrev pub IsInside : List Attendee → ℕ → Type 0
IsInside rows id = (a : Attendee) × (find (has_id id) rows ≡ some a) × (a.status ≡ checked_in)

abbrev pub HeldInside : List Attendee → KitCollection → Type 0
HeldInside rows c = is_voided c.status ≡ false → IsInside rows c.attendee_id

-- Whoever holds a kit that is not voided is checked in.
abbrev pub Inside : Db → Type 0
Inside db = All (HeldInside db.attendees) db.collections

IsInside-of_status :
    (env : Env) (id event_id : ℕ) (db : Db)
    → attendee_status_in_event env id event_id db ≡ ok (checked_in, db)
    → IsInside db.attendees id
unfolding attendee_status_in_event get_attendee_by_id
IsInside-of_status env id event_id db h = elim (Option-cases (find (has_id id) db.attendees)) [
  | inl missing ↦ absurd (ground arith)
  | inr (a, found) ↦ (a, found, ground arith)
]

hand_out-Inside :
    (env : Env) (org : ℕ) (k : Kit) (c : KitCollection) (reserve : Bool) (staff : ℕ)
    (old : Option KitCollection) (db : Db) {r : CollectionView × Db}
    → IsInside db.attendees c.attendee_id
    → hand_out env org k c reserve staff old db ≡ ok r
    → Inside db
    → Inside r.1
unfolding hand_out
hand_out-Inside env org k c reserve staff (some old) db {r = r} holder h inside =
    let same : r.1 ≡ db = ground arith in rw same inside
hand_out-Inside env org k c reserve staff none db holder h inside =
    let (room, free, view, collections, kits, attendees) =
      hand_out-eq-ok env org k c reserve staff db h in
    rw (collections, attendees)
      (All-append (HeldInside db.attendees) db.collections (c ∷ []) inside (λ _. holder, tt))

pub collect-Inside :
    (env : Env) (org : ℕ) (event_ref kit_ref attendee_ref : String) (reserve : Bool) (key : String)
    (staff : ℕ) (db : Db) {r : CollectionView × Db}
    → collect env org event_ref kit_ref attendee_ref reserve key staff db ≡ ok r
    → Inside db
    → Inside r.1
collect-Inside env org event_ref kit_ref attendee_ref reserve key staff db h inside =
    let (event_id, kit_id, attendee_id, k, old, named, found, mine, refs, status, replay, last) =
      collect-eq-ok env org event_ref kit_ref attendee_ref reserve key staff db h in
    hand_out-Inside env org k (new_collection env kit_id event_id attendee_id key staff reserve)
      reserve staff old db (IsInside-of_status env attendee_id event_id db status) last inside

moved-Inside :
    (env : Env) (to : CollectionStatus) (staff : ℕ) (rows : List Attendee) (c : KitCollection)
    → is_voided c.status ≡ false
    → HeldInside rows c
    → HeldInside rows (moved env to staff c)
moved-Inside env collected staff rows c live h still = h live
moved-Inside env voided staff rows c live h still = h live
moved-Inside env pending staff rows c live h still = h live

pub transition-Inside :
    (env : Env) (org : ℕ) (event_ref ref : String) (staff : ℕ) (to : CollectionStatus)
    (action : String) (from : CollectionStatus → Bool) (db : Db) {r : CollectionView × Db}
    → ((st : CollectionStatus) → from st ≡ true → is_voided st ≡ false)
    → transition env org event_ref ref staff to action from db ≡ ok r
    → Inside db
    → Inside r.1
transition-Inside env org event_ref ref staff to action from db live_from h inside =
    let (id, c, named, found, may, view, collections, kits, attendees) =
      transition-eq-ok env org event_ref ref staff to action from db h in
    let u = moved env to staff c in
    let same : u.id ≡ id = moved-id env to staff c ∙ found_row id c db.collections found in
    rw (collections, attendees, same)
      (All-update_found (HeldInside db.attendees) (is_row id) (λ _. u) {a = c} db.collections found
        (moved-Inside env to staff db.attendees c (live_from c.status may)
          (All-find (HeldInside db.attendees) (is_row id) {a = c} db.collections inside found))
        inside)

-- Rewriting one attendee's row keeps the others, and the one if it is checked in afterwards.
pub IsInside-update :
    (u : Attendee) (rows : List Attendee) (j : ℕ)
    → ((u.id == j) ≡ true → u.status ≡ checked_in)
    → IsInside rows j
    → IsInside (update_first (has_id u.id) (λ _. u) rows) j
IsInside-update u [] j stays (b, found, here) = absurd (ground arith)
IsInside-update u (x ∷ rows) j stays (b, found, here) = elim (Bool-cases (x.id == u.id)) [
  | inl this ↦ elim (Bool-cases (u.id == j)) [
    | inl mine ↦ rw (this, mine) (u, refl, stays mine)
    | inr other ↦ rw (this, other) (b, ground arith, here)
  ]
  | inr that ↦ elim (Bool-cases (x.id == j)) [
    | inl mine ↦ rw (that, mine) (b, ground arith, here)
    | inr other ↦ rw (that, other) (IsInside-update u rows j stays (b, ground arith, here))
  ]
]

IsInside-cancel :
    (order : ℕ) (rows : List Attendee) (j : ℕ)
    → IsInside rows j
    → IsInside (map (cancel_row order) rows) j
IsInside-cancel order [] j (b, found, here) = absurd (ground arith)
IsInside-cancel order (x ∷ rows) j (b, found, here) = elim (Bool-cases (x.id == j)) [
  | inl mine ↦ (x, ground arith, ground arith)
  | inr other ↦
      let (c, kept, still) = IsInside-cancel order rows j (b, ground arith, here) in
      (c, ground arith, still)
]

-- Cancelling an order leaves whoever holds a kit at the door: a checked-in row is not cancelled.
pub cancel_rows-Inside :
    (env : Env) (order : ℕ) (db : Db) {r : Unit {0} × Db}
    → cancel_rows env order db ≡ ok r
    → Inside db
    → Inside r.1
unfolding cancel_rows
cancel_rows-Inside env order db {r = r} h inside =
    let people : r.1.attendees ≡ map (cancel_row order) db.attendees = ground arith in
    let same : r.1.collections ≡ db.collections = ground arith in
    rw (people, same)
      (All-map (HeldInside db.attendees) (HeldInside (map (cancel_row order) db.attendees))
        db.collections (λ c held live. IsInside-cancel order db.attendees c.attendee_id (held live))
        inside)
