-- ===== src/Kits/Steps.antt =====
-- internal/kit/service/kit_service.go: what a kit operation that succeeds has checked and written.
use rallya.Common.{
  ℕ, ◌<◌, ◌≡◌, refl, inl, inr, String, Bool, true, false, not, Option, none, some, [], ◌∷◌, ◌++◌,
  arith, ok, bind-eq-ok, map_err, map_err-eq-ok, find, count, update_first, Option-cases,
  trim_space, codes, leb, ◌==◌, Reads, Reads-map_err, read-eq-ok, found-eq-ok, guard-eq-ok,
  written-eq-ok,
}
use rallya.Model.Kit.{Kit, KitCollection, CollectionStatus}
use rallya.Model.Attendee.{AttendeeStatus, registered, checked_in, cancelled, is_checked_in}
use rallya.Model.Audit.{Entry}
use rallya.Store.{Db, Env, emit_tx}
use rallya.Attendees.Door.{attendee_status_in_event}
use rallya.Attendees.Rows.{get_attendee_by_id}
use rallya.Kits.Types.{
  CollectionView, call_err, kit_err, attendee_err, collection_err, conflict_err, kit_not_found,
  collection_not_found, attendee_not_found, not_checked_in, quantity_exhausted, invalid_status,
  internal,
}
use rallya.Kits.Rows.{
  has_id, is_row, is_live, clashes, get_kit_row, count_active, find_by_idempotency,
  create_collection_row, get_collection_row, update_collection_row,
}
use rallya.Kits.Manage.{kit_entry, resolve_refs}
use rallya.Kits.Handout.{
  collect, new_collection, collect_action, hand_out, replayed, moved, transition,
}

pub resolve_refs-Reads :
    (env : Env) (org : ℕ) (event_ref kit_ref : String)
    → Reads (resolve_refs env org event_ref kit_ref)
resolve_refs-Reads env org event_ref kit_ref s r h = ground arith

pub get_kit_row-Reads : (env : Env) (id : ℕ) → Reads (get_kit_row env id)
unfolding get_kit_row
get_kit_row-Reads env id s r h = ground arith

pub get_collection_row-Reads : (env : Env) (id : ℕ) → Reads (get_collection_row env id)
unfolding get_collection_row
get_collection_row-Reads env id s r h = ground arith

pub count_active-Reads : (env : Env) (id : ℕ) → Reads (count_active env id)
unfolding count_active
count_active-Reads env id s r h = ground arith

replayed-Reads :
    (env : Env) (kit_id attendee_id : ℕ) (key : String)
    → Reads (replayed env kit_id attendee_id key)
unfolding find_by_idempotency
replayed-Reads env kit_id attendee_id key s r h = ground arith

attendee_status_in_event-Reads :
    (env : Env) (id event_id : ℕ) → Reads (attendee_status_in_event env id event_id)
unfolding attendee_status_in_event get_attendee_by_id
attendee_status_in_event-Reads env id event_id s r h = ground arith

-- The audit entry touches no other table.
pub emit_tx-eq-ok :
    (env : Env) (e : Entry) (db : Db) {r : Unit {0} × Db}
    → emit_tx env internal e db ≡ ok r
    → (r.1.kits ≡ db.kits) × (r.1.collections ≡ db.collections) × (r.1.attendees ≡ db.attendees)
emit_tx-eq-ok env e db h = (ground arith, ground arith, ground arith)

pub get_kit_row-found :
    (env : Env) (id : ℕ) (db : Db) {k : Kit}
    → get_kit_row env id db ≡ ok (k, db)
    → find (has_id id) db.kits ≡ some k
unfolding get_kit_row
get_kit_row-found env id db h = ground arith

pub get_collection_row-found :
    (env : Env) (id : ℕ) (db : Db) {c : KitCollection}
    → get_collection_row env id db ≡ ok (c, db)
    → find (is_row id) db.collections ≡ some c
unfolding get_collection_row
get_collection_row-found env id db h = ground arith

pub count_active-counted :
    (env : Env) (id : ℕ) (db : Db) {n : ℕ}
    → count_active env id db ≡ ok (n, db)
    → n ≡ count (is_live id) db.collections
unfolding count_active
count_active-counted env id db h = ground arith

create_collection_row-eq-ok :
    (env : Env) (c : KitCollection) (db : Db) {r : Unit {0} × Db}
    → create_collection_row env c db ≡ ok r
    → (find (clashes c) db.collections ≡ none)
      × (r.1 ≡ record db { collections = db.collections ++ c ∷ [] })
unfolding create_collection_row
create_collection_row-eq-ok env c db h = elim (Option-cases (find (clashes c) db.collections)) [
  | inl free ↦ (free, ground arith)
  | inr (d, taken) ↦ absurd (ground arith)
]

-- A handout that is not a replay.
pub hand_out-eq-ok :
    (env : Env) (org : ℕ) (k : Kit) (c : KitCollection) (reserve : Bool) (staff : ℕ) (db : Db)
    {r : CollectionView × Db}
    → hand_out env org k c reserve staff none db ≡ ok r
    → (count (is_live k.id) db.collections < k.quantity_total)
      × (find (clashes c) db.collections ≡ none)
      × (r.0 ≡ record { collection = c; kit_name = k.name })
      × (r.1.collections ≡ db.collections ++ c ∷ [])
      × (r.1.kits ≡ db.kits)
      × (r.1.attendees ≡ db.attendees)
unfolding hand_out
hand_out-eq-ok env org k c reserve staff db {r = r} h =
    let e = kit_entry org staff (collect_action reserve) "kit_collection" c.id in
    let (n, counted, h1) =
      read-eq-ok (map_err call_err (count_active env k.id)) _ db
        (Reads-map_err call_err (count_active env k.id) (count_active-Reads env k.id)) h in
    let (below, h2) = guard-eq-ok (leb k.quantity_total n) quantity_exhausted _ db h1 in
    let (v, inserted, h3) =
      bind-eq-ok (map_err conflict_err (create_collection_row env c) db) _ h2 in
    let (w, logged, view) =
      written-eq-ok (emit_tx env internal e) (record { collection = c; kit_name = k.name }) v.1
        h3 in
    let tally =
      count_active-counted env k.id db
        (map_err-eq-ok call_err (count_active env k.id) db counted) in
    let (free, written) =
      create_collection_row-eq-ok env c db
        (map_err-eq-ok conflict_err (create_collection_row env c) db inserted) in
    let (kits, collections, attendees) = emit_tx-eq-ok env e v.1 {r = (w, r.1)} logged in
    (ground arith, free, view, cc, cc, cc)

status_at_door : (st : AttendeeStatus) → not (is_checked_in st) ≡ false → st ≡ checked_in
status_at_door checked_in h = refl
status_at_door registered h = cc
status_at_door cancelled h = cc

-- A collection has resolved its references, found the attendee at the door and the kit, and then
-- looked the key up.
pub collect-eq-ok :
    (env : Env) (org : ℕ) (event_ref kit_ref attendee_ref : String) (reserve : Bool) (key : String)
    (staff : ℕ) (db : Db) {r : CollectionView × Db}
    → collect env org event_ref kit_ref attendee_ref reserve key staff db ≡ ok r
    → (event_id : ℕ) × (kit_id : ℕ) × (attendee_id : ℕ) × (k : Kit) × (existing : Option
        KitCollection)
      × (env.parse_uuid (codes (trim_space attendee_ref)) ≡ some attendee_id)
      × (find (has_id kit_id) db.kits ≡ some k)
      × ((k.event_id == event_id) ≡ true)
      × (resolve_refs env org event_ref kit_ref db ≡ ok ((event_id, kit_id), db))
      × (attendee_status_in_event env attendee_id event_id db ≡ ok (checked_in, db))
      × (replayed env kit_id attendee_id key db ≡ ok (existing, db))
      × (hand_out env org k
            (new_collection env kit_id event_id attendee_id key staff reserve)
            reserve
            staff
            existing
            db
          ≡ ok r)
unfolding collect
collect-eq-ok env org event_ref kit_ref attendee_ref reserve key staff db h =
    let (refs, e0, h0) =
      read-eq-ok (resolve_refs env org event_ref kit_ref) _ db
        (resolve_refs-Reads env org event_ref kit_ref) h in
    let (id, named, h1) =
      found-eq-ok (env.parse_uuid (codes (trim_space attendee_ref))) attendee_not_found _ db h0 in
    let (st, e2, h2) =
      read-eq-ok (map_err attendee_err (attendee_status_in_event env id refs.0)) _ db
        (Reads-map_err attendee_err (attendee_status_in_event env id refs.0)
          (attendee_status_in_event-Reads env id refs.0))
        h1 in
    let (inside, h3) = guard-eq-ok (not (is_checked_in st)) not_checked_in _ db h2 in
    let (k, e4, h4) =
      read-eq-ok (map_err kit_err (get_kit_row env refs.1)) _ db
        (Reads-map_err kit_err (get_kit_row env refs.1) (get_kit_row-Reads env refs.1)) h3 in
    let (mine, h5) = guard-eq-ok (not (k.event_id == refs.0)) kit_not_found _ db h4 in
    let (old, e6, h6) =
      read-eq-ok (replayed env refs.1 id key) _ db (replayed-Reads env refs.1 id key) h5 in
    let found =
      get_kit_row-found env refs.1 db (map_err-eq-ok kit_err (get_kit_row env refs.1) db e4) in
    let asked = map_err-eq-ok attendee_err (attendee_status_in_event env id refs.0) db e2 in
    let at_door : attendee_status_in_event env id refs.0 db ≡ ok (checked_in, db) =
      rw (status_at_door st inside) at asked in
    (refs.0, refs.1, id, k, old, named, found, ground arith, e0, at_door, e6, h6)

update_collection_row-eq-ok :
    (env : Env) (c : KitCollection) (db : Db) {r : Unit {0} × Db}
    → update_collection_row env c db ≡ ok r
    → r.1 ≡ record db { collections = update_first (is_row c.id) (λ _. c) db.collections }
unfolding update_collection_row
update_collection_row-eq-ok env c db h = ground arith

-- A transition has found the row in a status that it may start from, and has rewritten it.
pub transition-eq-ok :
    (env : Env) (org : ℕ) (event_ref ref : String) (staff : ℕ) (to : CollectionStatus)
    (action : String) (from : CollectionStatus → Bool) (db : Db) {r : CollectionView × Db}
    → transition env org event_ref ref staff to action from db ≡ ok r
    → (id : ℕ) × (c : KitCollection) × (env.parse_uuid (codes (trim_space ref)) ≡ some id)
      × (find (is_row id) db.collections ≡ some c)
      × (from c.status ≡ true)
      × (r.0.collection ≡ moved env to staff c)
      × (r.1.collections
          ≡ update_first
              (is_row (moved env to staff c).id)
              (λ _. moved env to staff c)
              db.collections)
      × (r.1.kits ≡ db.kits)
      × (r.1.attendees ≡ db.attendees)
unfolding transition
transition-eq-ok env org event_ref ref staff to action from db {r = r} h =
    let (event, known, h0) =
      found-eq-ok (env.resolve_event org event_ref) collection_not_found _ db h in
    let (id, named, h1) =
      found-eq-ok (env.parse_uuid (codes (trim_space ref))) collection_not_found _ db h0 in
    let (c, e2, h2) =
      read-eq-ok (map_err collection_err (get_collection_row env id)) _ db
        (Reads-map_err collection_err (get_collection_row env id) (get_collection_row-Reads env id))
        h1 in
    let (mine, h3) = guard-eq-ok (not (c.event_id == event)) collection_not_found _ db h2 in
    let (may, h4) = guard-eq-ok (not (from c.status)) invalid_status _ db h3 in
    let u = moved env to staff c in
    let (v, e5, h5) = bind-eq-ok (map_err call_err (update_collection_row env u) db) _ h4 in
    let (k, e6, h6) =
      read-eq-ok (map_err call_err (get_kit_row env u.kit_id)) _ v.1
        (Reads-map_err call_err (get_kit_row env u.kit_id) (get_kit_row-Reads env u.kit_id)) h5 in
    let e = kit_entry org staff action "kit_collection" u.id in
    let (w, logged, view) =
      written-eq-ok (emit_tx env internal e) (record { collection = u; kit_name = k.name }) v.1
        h6 in
    let found =
      get_collection_row-found env id db
        (map_err-eq-ok collection_err (get_collection_row env id) db e2) in
    let (kits, collections, attendees) = emit_tx-eq-ok env e v.1 {r = (w, r.1)} logged in
    let updated =
      update_collection_row-eq-ok env u db
        (map_err-eq-ok call_err (update_collection_row env u) db e5) in
    (id, c, named, found, ground arith, cc, cc, cc, cc)
