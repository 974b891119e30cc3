-- ===== src/Kits/Covered.antt =====
-- internal/kit/service/kit_service.go: the units handed out or held of each kit against its
-- quantity, over `Collect`, `MarkCollected` and `Void`.
use rallya.Common.{
  ℕ, ◌≤◌, ◌<◌, ◌≡◌, ◌∙◌, inl, inr, String, Bool, true, false, not, Option, none, some, List, [],
  ◌∷◌, ◌++◌, arith, ok, find, count, update_first, Bool-cases, ==_iff, All, All-map, All-zip,
  Distinct, Distinct-find, count-append, count-update_found-le,
}
use rallya.Model.Kit.{
  Kit, KitCollection, CollectionStatus, collected, voided, pending, is_voided, is_pending,
}
use rallya.Store.{Db, Env}
use rallya.Kits.Types.{CollectionView}
use rallya.Kits.Rows.{has_id, is_row, is_live}
use rallya.Kits.Handout.{collect, mark_collected, void, hand_out, new_collection, moved, transition}
use rallya.Kits.Steps.{collect-eq-ok, hand_out-eq-ok, transition-eq-ok}

-- The live handouts of a kit fit its quantity.
abbrev pub IsCovered : List KitCollection → Kit → Type 0
IsCovered cs k = count (is_live k.id) cs ≤ k.quantity_total

-- The primary key of `kits`, and the fit of every kit.
abbrev pub Covered : Db → Type 0
Covered db = Distinct (λ (k : Kit). k.id) db.kits × All (IsCovered db.collections) db.kits

-- One more handout, of a kit that has room.
IsCovered-append :
    (c : KitCollection) (k : Kit) (cs : List KitCollection) (ks : List Kit)
    → find (has_id c.kit_id) ks ≡ some k
    → count (is_live k.id) cs < k.quantity_total
    → (j : Kit) → find (has_id j.id) ks ≡ some j
    → IsCovered cs j
    → IsCovered (cs ++ c ∷ []) j
IsCovered-append c k cs ks found room j own fits = elim (Bool-cases (is_live j.id c)) [
  | inl live ↦
      let same : c.kit_id ≡ j.id = (==_iff c.kit_id j.id).0 (ground arith) in
      let here : find (has_id j.id) ks ≡ some k = rw same at found in
      let one : k ≡ j = cc in
      let below : count (is_live j.id) cs < j.quantity_total = rw one at room in
      rw (count-append (is_live j.id) cs (c ∷ []), live) (omega (arith, below))
  | inr dead ↦ rw (count-append (is_live j.id) cs (c ∷ []), dead) (omega (arith, fits))
]

found_kit : (id : ℕ) (k : Kit) (ks : List Kit) → find (has_id id) ks ≡ some k → k.id ≡ id
found_kit id k [] h = cc
found_kit id k (x ∷ ks) h = ground (arith, found_kit id k ks)

pub hand_out-Covered :
    (env : Env) (org : ℕ) (k : Kit) (c : KitCollection) (reserve : Bool) (staff : ℕ)
    (old : Option KitCollection) (db : Db) {r : CollectionView × Db}
    → find (has_id c.kit_id) db.kits ≡ some k
    → hand_out env org k c reserve staff old db ≡ ok r
    → Covered db
    → Covered r.1
unfolding hand_out
hand_out-Covered env org k c reserve staff (some old) db {r = r} found h covered =
    let same : r.1 ≡ db = ground arith in rw same covered
hand_out-Covered env org k c reserve staff none db found h (keys, fits) =
    let (room, free, view, collections, kits, attendees) =
      hand_out-eq-ok env org k c reserve staff db h in
    rw (collections, kits)
      (
        keys,
        All-zip (λ j. find (has_id j.id) db.kits ≡ some j) (IsCovered db.collections)
            (IsCovered (db.collections ++ c ∷ [])) db.kits
            (λ j own within. IsCovered-append c k db.collections db.kits found room j own within)
            (Distinct-find (λ (j : Kit). j.id) db.kits keys) fits,
      )

-- No kit is handed out beyond its quantity: if the handouts of every kit that are not voided fit
-- its quantity, and kits have distinct keys, both still hold after a collection that succeeds,
-- whether it reserves, hands over at once, or replays an idempotency key.
pub collect-Covered :
    (env : Env) (org : ℕ) (event_ref kit_ref attendee_ref : String) (reserve : Bool) (key : String)
    (staff : ℕ) (db : Db) {r : CollectionView × Db}
    → collect env org event_ref kit_ref attendee_ref reserve key staff db ≡ ok r
    → Covered db
    → Covered r.1
collect-Covered env org event_ref kit_ref attendee_ref reserve key staff db h covered =
    let (event_id, kit_id, attendee_id, k, old, named, found, mine, refs, status, replay, last) =
      collect-eq-ok env org event_ref kit_ref attendee_ref reserve key staff db h in
    hand_out-Covered env org k (new_collection env kit_id event_id attendee_id key staff reserve)
      reserve staff old db found last covered

moved-live :
    (env : Env) (to : CollectionStatus) (staff j : ℕ) (c : KitCollection)
    → is_voided c.status ≡ false
    → is_live j (moved env to staff c) ≡ true
    → is_live j c ≡ true
moved-live env collected staff j c h live = ground arith
moved-live env voided staff j c h live = ground arith
moved-live env pending staff j c h live = ground arith

pub moved-id :
    (env : Env) (to : CollectionStatus) (staff : ℕ) (c : KitCollection)
    → (moved env to staff c).id ≡ c.id
moved-id env collected staff c = ground arith
moved-id env voided staff c = ground arith
moved-id env pending staff c = ground arith

pub found_row :
    (id : ℕ) (c : KitCollection) (cs : List KitCollection)
    → find (is_row id) cs ≡ some c
    → c.id ≡ id
found_row id c [] h = cc
found_row id c (x ∷ cs) h = ground (arith, found_row id c cs)

-- A transition out of a live status adds no live handout.
pub transition-Covered :
    (env : Env) (org : ℕ) (event_ref ref : String) (staff : ℕ) (to : CollectionStatus)
    (action : String) (from : CollectionStatus → Bool) (db : Db) {r : CollectionView × Db}
    → ((st : CollectionStatus) → from st ≡ true → is_voided st ≡ false)
    → transition env org event_ref ref staff to action from db ≡ ok r
    → Covered db
    → Covered r.1
transition-Covered env org event_ref ref staff to action from db live_from h (keys, fits) =
    let (id, c, named, found, may, view, collections, kits, attendees) =
      transition-eq-ok env org event_ref ref staff to action from db h in
    let u = moved env to staff c in
    let same : u.id ≡ id = moved-id env to staff c ∙ found_row id c db.collections found in
    rw (collections, kits, same)
      (
        keys,
        All-map (IsCovered db.collections)
            (IsCovered (update_first (is_row id) (λ _. u) db.collections)) db.kits
            (λ j within. omega (
              arith,
              within,
              count-update_found-le (is_live j.id) (is_row id) (λ _. u) {a = c} db.collections found
                  (moved-live env to staff j.id c (live_from c.status may)),
            ))
            fits,
      )

pub pending_is_live : (st : CollectionStatus) → is_pending st ≡ true → is_voided st ≡ false
pending_is_live st h = ground arith

pub not_voided : (st : CollectionStatus) → not (is_voided st) ≡ true → is_voided st ≡ false
not_voided st h = ground arith

pub mark_collected-Covered :
    (env : Env) (org : ℕ) (event_ref ref : String) (staff : ℕ) (db : Db) {r : CollectionView × Db}
    → mark_collected env org event_ref ref staff db ≡ ok r
    → Covered db
    → Covered r.1
unfolding mark_collected
mark_collected-Covered env org event_ref ref staff db h covered =
    transition-Covered env org event_ref ref staff collected "kit.collected" is_pending db
      pending_is_live h covered

pub void-Covered :
    (env : Env) (org : ℕ) (event_ref ref : String) (staff : ℕ) (db : Db) {r : CollectionView × Db}
    → void env org event_ref ref staff db ≡ ok r
    → Covered db
    → Covered r.1
unfolding void
void-Covered env org event_ref ref staff db h covered =
    transition-Covered env org event_ref ref staff voided "kit.voided" (λ st. not (is_voided st)) db
      not_voided h covered
