-- ===== src/Kits/Replays.antt =====
-- internal/kit/service/kit_service.go: tablet retries of `Collect` under an idempotency key.
use rallya.Common.{
  ℕ, ◌≡◌, ◌∙◌, sym, inl, inr, String, Bool, true, false, Option, none, some, List, [], ◌∷◌, ◌++◌,
  arith, ok, find, Option-cases, ◌==◌, is_empty, trim_space, codes, str_eq_refl, refl, ap,
}
use rallya.Model.Kit.{Kit, KitCollection}
use rallya.Model.Attendee.{checked_in}
use rallya.Store.{
  Db, Env, get_kit as call_get_kit, find_by_idempotency as call_find_by_idempotency,
  get_attendee as call_get_attendee,
}
use rallya.Attendees.Door.{attendee_status_in_event}
use rallya.Attendees.Rows.{get_attendee_by_id, has_id as has_attendee}
use rallya.Kits.Types.{CollectionView}
use rallya.Kits.Rows.{has_id, has_key, get_kit_row, find_by_idempotency}
use rallya.Kits.Manage.{resolve_refs}
use rallya.Kits.Handout.{collect, hand_out, replayed, new_collection}
use rallya.Kits.Steps.{collect-eq-ok, hand_out-eq-ok}

-- the last row of a table is found when no other row is
find-append :
    {A : Type 0} (p : A → Bool) (x : A) (xs : List A)
    → find p xs ≡ none
    → p x ≡ true
    → find p (xs ++ x ∷ []) ≡ some x
find-append p x [] h e = ground arith
find-append p x (y ∷ xs) h e = ground (arith, find-append p x xs)

-- A retry finds what the first attempt wrote or found.
replayed_after :
    (env : Env) (org : ℕ) (k : Kit) (event_id kit_id attendee_id staff : ℕ) (reserve : Bool)
    (key : String) (old : Option KitCollection) (db : Db) {r : CollectionView × Db}
    → is_empty key ≡ false
    → replayed env kit_id attendee_id key db ≡ ok (old, db)
    → hand_out env org k
        (new_collection env kit_id event_id attendee_id key staff reserve)
        reserve
        staff
        old
        db
      ≡ ok r
    → (find (has_key kit_id attendee_id key) r.1.collections ≡ some r.0.collection)
      × (r.1.kits ≡ db.kits)
      × (r.1.attendees ≡ db.attendees)
      × (r.0 ≡ record { collection = r.0.collection; kit_name = k.name })
unfolding find_by_idempotency hand_out
replayed_after env org k event_id kit_id attendee_id staff reserve key (some old) db given e h =
    let found : find (has_key kit_id attendee_id key) db.collections ≡ some old = ground arith in
    (ground arith, ground arith, ground arith, ground arith)
replayed_after env org k event_id kit_id attendee_id staff reserve key none db given e h =
    let c = new_collection env kit_id event_id attendee_id key staff reserve in
    let (room, free, view, collections, kits, attendees) =
      hand_out-eq-ok env org k c reserve staff db h in
    let missing : find (has_key kit_id attendee_id key) db.collections ≡ none = ground arith in
    let self = str_eq_refl key in
    let mine : has_key kit_id attendee_id key c ≡ true = ground arith in
    let last = find-append (has_key kit_id attendee_id key) c db.collections missing mine in
    (rw (collections, view) last, kits, attendees, ground arith)

-- The door answers a second request as it answered the first.
status_again :
    (env env' : Env) (id event_id : ℕ) (db db' : Db)
    → env'.fault call_get_attendee ≡ false
    → db'.attendees ≡ db.attendees
    → attendee_status_in_event env id event_id db ≡ ok (checked_in, db)
    → attendee_status_in_event env' id event_id db' ≡ ok (checked_in, db')
unfolding attendee_status_in_event get_attendee_by_id
status_again env env' id event_id db db' works same h =
    elim (Option-cases (find (has_attendee id) db.attendees)) [
      | inl missing ↦ absurd (ground arith)
      | inr (a, found) ↦ rw (works, same, found) (ground arith)
    ]

-- The references resolve to the same event and kit.
refs_again :
    (env env' : Env) (org event_id kit_id : ℕ) (event_ref kit_ref : String) (db db' : Db)
    → env'.resolve_event org event_ref ≡ env.resolve_event org event_ref
    → env'.parse_uuid ≡ env.parse_uuid
    → resolve_refs env org event_ref kit_ref db ≡ ok ((event_id, kit_id), db)
    → resolve_refs env' org event_ref kit_ref db' ≡ ok ((event_id, kit_id), db')
refs_again env env' org event_id kit_id event_ref kit_ref db db' same_event same_parse h =
    elim (Option-cases (env.resolve_event org event_ref)) [
      | inl missing ↦ absurd (ground arith)
      | inr (e, event) ↦ elim (Option-cases (env.parse_uuid (codes (trim_space kit_ref)))) [
        | inl missing ↦ absurd (ground arith)
        | inr (k, kit) ↦ rw (same_event, same_parse, event, kit) (ground arith)
      ]
    ]

-- A request whose key is found gives that row.
collect_found :
    (env : Env) (org event_id kit_id attendee_id : ℕ) (k : Kit) (c : KitCollection)
    (event_ref kit_ref attendee_ref : String) (reserve : Bool) (key : String) (staff : ℕ) (db : Db)
    → is_empty key ≡ false
    → env.fault call_get_kit ≡ false
    → env.fault call_find_by_idempotency ≡ false
    → resolve_refs env org event_ref kit_ref db ≡ ok ((event_id, kit_id), db)
    → env.parse_uuid (codes (trim_space attendee_ref)) ≡ some attendee_id
    → attendee_status_in_event env attendee_id event_id db ≡ ok (checked_in, db)
    → find (has_id kit_id) db.kits ≡ some k
    → (k.event_id == event_id) ≡ true
    → find (has_key kit_id attendee_id key) db.collections ≡ some c
    → collect env org event_ref kit_ref attendee_ref reserve key staff db
      ≡ ok (record { collection = c; kit_name = k.name }, db)
unfolding collect find_by_idempotency get_kit_row hand_out
collect_found env org event_id kit_id attendee_id k c event_ref kit_ref attendee_ref reserve key
      staff db given f2 f3 refs named status found mine kept =
    rw (refs, named, status, f2, found, mine, given, f3, kept) refl

-- A tablet's retry: after a collection under a non-empty idempotency key has succeeded, the same
-- request, at any time, by any staff and with any next identifier, gives the same handout with the
-- same kit name and changes nothing, provided its reads do not fail and the references resolve as
-- before.
pub collect_again :
    (env env' : Env) (org : ℕ) (event_ref kit_ref attendee_ref : String) (reserve reserve' : Bool)
    (key : String) (staff staff' : ℕ) (db : Db) {r : CollectionView × Db}
    → is_empty key ≡ false
    → env'.resolve_event org event_ref ≡ env.resolve_event org event_ref
    → env'.parse_uuid ≡ env.parse_uuid
    → env'.fault call_get_attendee ≡ false
    → env'.fault call_get_kit ≡ false
    → env'.fault call_find_by_idempotency ≡ false
    → collect env org event_ref kit_ref attendee_ref reserve key staff db ≡ ok r
    → collect env' org event_ref kit_ref attendee_ref reserve' key staff' r.1 ≡ ok r
collect_again env env' org event_ref kit_ref attendee_ref reserve reserve' key staff staff' db
      {r = r} given same_event same_parse f1 f2 f3 h =
    let (event_id, kit_id, attendee_id, k, old, named, found, mine, refs, status, replay, last) =
      collect-eq-ok env org event_ref kit_ref attendee_ref reserve key staff db h in
    let (kept, kits, attendees, view) =
      replayed_after env org k event_id kit_id attendee_id staff reserve key old db given replay
        last in
    collect_found env' org event_id kit_id attendee_id k r.0.collection event_ref kit_ref
      attendee_ref reserve' key staff' r.1 given f2 f3
      (refs_again env env' org event_id kit_id event_ref kit_ref db r.1 same_event same_parse refs)
      (rw same_parse named) (status_again env env' attendee_id event_id db r.1 f1 attendees status)
      (rw kits found) mine kept
    ∙ ap (λ v. ok (v, r.1)) (sym view)
