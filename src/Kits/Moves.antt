-- ===== src/Kits/Moves.antt =====
-- internal/kit/service/kit_service.go: the life of a handout, PENDING to COLLECTED to VOIDED.
use rallya.Common.{
  ℕ, ◌≡◌, ◌∙◌, ap, refl, inl, inr, String, Bool, true, false, not, Option, none, some, List, [],
  ◌∷◌, arith, ok, find, update_first, Bool-cases, ◌==◌, All, All-append, if◌then◌else◌,
}
use rallya.Model.Kit.{
  Kit, KitCollection, CollectionStatus, collected, voided, pending, is_voided, is_pending,
}
use rallya.Store.{Db, Env}
use rallya.Kits.Types.{CollectionView}
use rallya.Kits.Rows.{is_row}
use rallya.Kits.Handout.{collect, mark_collected, void, hand_out, new_collection, moved, transition}
use rallya.Kits.Steps.{collect-eq-ok, hand_out-eq-ok, transition-eq-ok}
use rallya.Kits.Covered.{moved-id, found_row}

-- The moves of a handout that exists.
pub data Move : CollectionStatus → CollectionStatus → Type 0 where
  hand_over : Move pending collected
  give_up : Move pending voided
  take_back : Move collected voided

-- One row moves, and every other row stays.
pub record Moved (before after : List KitCollection) : Type 0 where
  pub id : ℕ
  pub old : KitCollection
  pub new : KitCollection
  pub was : find (is_row id) before ≡ some old
  pub is : find (is_row id) after ≡ some new
  pub move : Move old.status new.status
  pub others : (j : ℕ) → (id == j) ≡ false → find (is_row j) after ≡ find (is_row j) before

find-update :
    (id j : ℕ) (c u : KitCollection) (cs : List KitCollection)
    → u.id ≡ id
    → find (is_row id) cs ≡ some c
    → find (is_row j) (update_first (is_row id) (λ _. u) cs)
      ≡ (if id == j then some u else find (is_row j) cs)
find-update id j c u [] same found = absurd (ground arith)
find-update id j c u (x ∷ cs) same found = elim (Bool-cases (x.id == id)) [
  | inl here ↦ ground arith
  | inr further ↦ ground (arith, find-update id j c u cs same (ground arith))
]

transition-Moved :
    (env : Env) (org : ℕ) (event_ref ref : String) (staff : ℕ) (to : CollectionStatus)
    (action : String) (from : CollectionStatus → Bool) (db : Db) {r : CollectionView × Db}
    → ((c : KitCollection) → from c.status ≡ true → Move c.status (moved env to staff c).status)
    → transition env org event_ref ref staff to action from db ≡ ok r
    → Moved db.collections r.1.collections
transition-Moved env org event_ref ref staff to action from db {r = r} moves h =
    let (id, c, named, found, may, view, collections, kits, attendees) =
      transition-eq-ok env org event_ref ref staff to action from db h in
    let u = moved env to staff c in
    let same : u.id ≡ id = moved-id env to staff c ∙ found_row id c db.collections found in
    let written : r.1.collections ≡ update_first (is_row id) (λ _. u) db.collections =
      collections ∙ ap (λ k. update_first (is_row k) (λ _. u) db.collections) same in
    record {
      id = id;
      old = c;
      new = u;
      was = found;
      is = rw (written, find-update id id c u db.collections same found) (ground arith);
      move = moves c may;
      others = λ j other. rw (written, find-update id j c u db.collections same found, other) refl;
    }

mark_move : (st : CollectionStatus) → is_pending st ≡ true → Move st collected
mark_move pending h = Move.hand_over
mark_move collected h = absurd (ground arith)
mark_move voided h = absurd (ground arith)

void_move : (st : CollectionStatus) → not (is_voided st) ≡ true → Move st voided
void_move pending h = Move.give_up
void_move collected h = Move.take_back
void_move voided h = absurd (ground arith)

-- A handout that is marked collected was reserved, and no other handout changes.
pub mark_collected-Moved :
    (env : Env) (org : ℕ) (event_ref ref : String) (staff : ℕ) (db : Db) {r : CollectionView × Db}
    → mark_collected env org event_ref ref staff db ≡ ok r
    → Moved db.collections r.1.collections
unfolding mark_collected
mark_collected-Moved env org event_ref ref staff db h =
    transition-Moved env org event_ref ref staff collected "kit.collected" is_pending db
      (λ c may. mark_move c.status may) h

-- A handout that is voided was reserved or collected, and no other handout changes.
pub void-Moved :
    (env : Env) (org : ℕ) (event_ref ref : String) (staff : ℕ) (db : Db) {r : CollectionView × Db}
    → void env org event_ref ref staff db ≡ ok r
    → Moved db.collections r.1.collections
unfolding void
void-Moved env org event_ref ref staff db h =
    transition-Moved env org event_ref ref staff voided "kit.voided" (λ st. not (is_voided st)) db
      (λ c may. void_move c.status may) h

-- A reservation carries no stamps, a handout that was collected carries both.
abbrev pub IsStamped : KitCollection → Type 0
IsStamped c = elim c.status [
  | pending ↦ (c.collected_at ≡ none) × (c.collected_by ≡ none)
  | collected ↦
      ((t : ℕ) × (c.collected_at ≡ some t)) × ((staff : ℕ) × (c.collected_by ≡ some staff))
  | voided ↦ Unit
]

new_collection-Stamped :
    (env : Env) (kit_id event_id attendee_id : ℕ) (key : String) (staff : ℕ) (reserve : Bool)
    → IsStamped (new_collection env kit_id event_id attendee_id key staff reserve)
new_collection-Stamped env kit_id event_id attendee_id key staff true = (refl, refl)
new_collection-Stamped env kit_id event_id attendee_id key staff false =
    ((env.now, refl), (staff, refl))

hand_out-Stamped :
    (env : Env) (org : ℕ) (k : Kit) (c : KitCollection) (reserve : Bool) (staff : ℕ)
    (old : Option KitCollection) (db : Db) {r : CollectionView × Db}
    → IsStamped c
    → hand_out env org k c reserve staff old db ≡ ok r
    → All IsStamped db.collections
    → All IsStamped r.1.collections
unfolding hand_out
hand_out-Stamped env org k c reserve staff (some old) db {r = r} new h stamped =
    let same : r.1 ≡ db = ground arith in rw same stamped
hand_out-Stamped env org k c reserve staff none db new h stamped =
    let (room, free, view, collections, kits, attendees) =
      hand_out-eq-ok env org k c reserve staff db h in
    rw collections (All-append IsStamped db.collections (c ∷ []) stamped (new, tt))

-- If every reservation is free of stamps and every collected handout says when and by whom, that
-- still holds after a collection that succeeds.
pub collect-Stamped :
    (env : Env) (org : ℕ) (event_ref kit_ref attendee_ref : String) (reserve : Bool) (key : String)
    (staff : ℕ) (db : Db) {r : CollectionView × Db}
    → collect env org event_ref kit_ref attendee_ref reserve key staff db ≡ ok r
    → All IsStamped db.collections
    → All IsStamped r.1.collections
collect-Stamped env org event_ref kit_ref attendee_ref reserve key staff db h stamped =
    let (event_id, kit_id, attendee_id, k, old, named, found, mine, refs, status, replay, last) =
      collect-eq-ok env org event_ref kit_ref attendee_ref reserve key staff db h in
    hand_out-Stamped env org k (new_collection env kit_id event_id attendee_id key staff reserve)
      reserve staff old db
      (new_collection-Stamped env kit_id event_id attendee_id key staff reserve) last stamped
