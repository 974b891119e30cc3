-- ===== src/Events/Caching.antt =====
-- internal/event/service/event_service.go: the cache of public payloads holds what the database
-- would answer, as long as the purges work.
use rallya.Common.{
  ℕ, ◌≡◌, inl, inr, refl, ap, ◌∙◌, true, false, not, ◌&&◌, Option, none, some, List, [], ◌∷◌, arith,
  ok, err, Result, ◌==◌, find, All, All-map, All-filter, Bool, if◌then◌else◌, Bool-cases,
  Option-cases,
}
use rallya.Model.Event.{Event, is_published}
use rallya.Store.{Db, Env, cache_get, cache_set, cache_del, get_event_by_id as call_get_event_by_id}
use rallya.Events.Types.{EventError, EventView, to_event}
use rallya.Events.Rows.{has_event, get_event_by_id}
use rallya.Events.Serve.{
  Cached, Site, under, without, purge_public_event, then_purge, then_purge_cloned, then_store,
  store_public, hit, published_event, answer_public, get_public_event,
}
use rallya.Events.Apart.{Apart}
use rallya.Events.Gallery.{Added}
use rallya.Events.Pictures.{Touches}

-- The payload is of an event that is published, as it stands in the database.
abbrev pub IsCurrent : Db → Cached → Type 0
IsCurrent db c =
    (e : Event) × (find (has_event c.key) db.events ≡ some e)
    × (is_published e ≡ true)
    × (c.payload ≡ to_event e)

abbrev pub Fresh : Site → Type 0
Fresh s = All (IsCurrent s.db) s.cache

-- A cache is wired, and its deletions work.
abbrev pub Purges : Env → Type 0
Purges env = (env.cache_wired ≡ true) × (env.fault cache_del ≡ false)

without-Current :
    (id : ℕ) (db db' : Db) (cache : List Cached)
    → Apart id db.events db'.events
    → All (IsCurrent db) cache
    → All (IsCurrent db') (without id cache)
without-Current id db db' [] apart h = tt
without-Current id db db' (c ∷ cs) apart (here, rest) = elim (Bool-cases (c.key == id)) [
  | inl dropped ↦ rw dropped (without-Current id db db' cs apart rest)
  | inr kept ↦
      let (e, row, shown, same) = here in
      rw kept ((e, apart c.key kept ∙ row, shown, same), without-Current id db db' cs apart rest)
]

-- A write that touches one event only, followed by its purge, leaves the cache current.
pub then_purge-Fresh :
    (env : Env) (m : Result EventError (Event × Db)) (s : Site)
    → Purges env
    → ((r : Event × Db) → m ≡ ok r → Apart r.0.id s.db.events r.1.events)
    → Fresh s
    → Fresh ((then_purge env m s).1)
unfolding purge_public_event
then_purge-Fresh env (err e) s purges apart h = h
then_purge-Fresh env (ok r) s (wired, works) apart h =
    rw (wired, works) (without-Current r.0.id s.db r.1 s.cache (apart r refl) h)

-- A cache that is purged where the write touched an event.
kept-IsCurrent :
    (env : Env) (cloned : Bool) (e : Event) (cache : List Cached) (db db' : Db)
    → Purges env
    → Touches cloned e db db'
    → All (IsCurrent db) cache
    → All (IsCurrent db') (if cloned then purge_public_event env e.id cache else cache)
unfolding purge_public_event
kept-IsCurrent env true e cache db db' (wired, works) apart h =
    rw (wired, works) (without-Current e.id db db' cache apart h)
kept-IsCurrent env false e cache db db' purges same h =
    All-map (IsCurrent db) (IsCurrent db') cache
      (λ c is. let (f, row, shown, view) = is in (f, rw same row, shown, view)) h

pub then_purge_cloned-Fresh :
    (env : Env) (m : Result EventError (Added × Db)) (s : Site)
    → Purges env
    → ((r : Added × Db) → m ≡ ok r → Touches r.0.cloned r.0.event s.db r.1)
    → Fresh s
    → Fresh ((then_purge_cloned env m s).1)
then_purge_cloned-Fresh env (err e) s purges touches h = h
then_purge_cloned-Fresh env (ok r) s purges touches h =
    kept-IsCurrent env r.0.cloned r.0.event s.cache s.db r.1 purges (touches r refl) h

-- What is found in the database is a published row.
pub published_event-eq-ok :
    (env : Env) (id : ℕ) (db : Db) {r : EventView × Db}
    → published_event env id db ≡ ok r
    → (e : Event) × (find (has_event id) db.events ≡ some e)
      × (is_published e ≡ true)
      × (r.0 ≡ to_event e)
      × (r.1 ≡ db)
unfolding published_event get_event_by_id
published_event-eq-ok env id db h = elim (Option-cases (find (has_event id) db.events)) [
  | inl gone ↦ absurd (ground arith)
  | inr (e, row) ↦ (e, row, ground arith, ground arith, ground arith)
]

-- Dropping a payload leaves the others.
pub drop-Current :
    (id : ℕ) (db : Db) (cache : List Cached)
    → All (IsCurrent db) cache
    → All (IsCurrent db) (without id cache)
drop-Current id db cache h = All-filter (IsCurrent db) (λ c. not (under id c)) cache h

store_public-Current :
    (env : Env) (id : ℕ) (v : EventView) (db : Db) (cache : List Cached)
    → IsCurrent db (record { key = id; payload = v })
    → All (IsCurrent db) cache
    → All (IsCurrent db) (store_public env id v cache)
store_public-Current env id v db cache new h =
    elim (Bool-cases (env.cache_wired && not (env.fault cache_set))) [
      | inl kept ↦ rw kept (new, drop-Current id db cache h)
      | inr lost ↦ rw lost h
    ]

then_store-Fresh :
    (env : Env) (id : ℕ) (m : Result EventError (EventView × Db)) (s : Site)
    → ((r : EventView × Db)
        → m ≡ ok r
        → (e : Event) × (find (has_event id) s.db.events ≡ some e)
          × (is_published e ≡ true)
          × (r.0 ≡ to_event e)
          × (r.1 ≡ s.db))
    → Fresh s
    → Fresh ((then_store env id m s).1)
then_store-Fresh env id (err e) s is h = h
then_store-Fresh env id (ok r) s is h =
    let (e, row, shown, same, store) = is r refl in
    rw store (store_public-Current env id r.0 s.db s.cache (e, row, shown, same) h)

answer_public-Fresh :
    (env : Env) (id : ℕ) (o : Option Cached) (s : Site)
    → Fresh s
    → Fresh ((answer_public env id o s).1)
answer_public-Fresh env id (some c) s h = h
answer_public-Fresh env id none s h =
    then_store-Fresh env id (published_event env id s.db) s
      (λ r e. published_event-eq-ok env id s.db e) h

pub get_public_event-Fresh :
    (env : Env) (id : ℕ) (s : Site) → Fresh s → Fresh ((get_public_event env id s).1)
unfolding get_public_event
get_public_event-Fresh env id s h = answer_public-Fresh env id (hit env id s.cache) s h

-- A payload that is found under a key is current, and has that key.
find-Current :
    (id : ℕ) (db : Db) (cache : List Cached) {c : Cached}
    → find (under id) cache ≡ some c
    → All (IsCurrent db) cache
    → (c.key ≡ id) × IsCurrent db c
find-Current id db [] found h = absurd (ground arith)
find-Current id db (x ∷ xs) {c = c} found (here, rest) = elim (Bool-cases (under id x)) [
  | inl this ↦
      let same : x ≡ c = ground arith in
      let both : (x.key ≡ id) × IsCurrent db x = (ground arith, here) in rw same at both
  | inr further ↦ find-Current id db xs {c = c} (ground arith) rest
]

published_event-found :
    (env : Env) (id : ℕ) (db : Db) {e : Event}
    → env.fault call_get_event_by_id ≡ false
    → find (has_event id) db.events ≡ some e
    → is_published e ≡ true
    → published_event env id db ≡ ok (to_event e, db)
unfolding published_event get_event_by_id
published_event-found env id db works row shown = rw (works, row, shown) refl

-- The answer of a read, less the store.
abbrev pub answer_of : Result EventError (EventView × Db) → Result EventError EventView
answer_of (ok r) = ok r.0
answer_of (err e) = err e

then_store-answer :
    (env : Env) (id : ℕ) (m : Result EventError (EventView × Db)) (s : Site)
    → (then_store env id m s).0 ≡ answer_of m
then_store-answer env id (ok r) s = refl
then_store-answer env id (err e) s = refl

answer_public-current :
    (env : Env) (id : ℕ) (o : Option Cached) (s : Site)
    → env.fault call_get_event_by_id ≡ false
    → hit env id s.cache ≡ o
    → Fresh s
    → (answer_public env id o s).0 ≡ answer_of (published_event env id s.db)
answer_public-current env id none s works miss h =
    then_store-answer env id (published_event env id s.db) s
answer_public-current env id (some c) s works found h =
    elim (Bool-cases (env.cache_wired && not (env.fault cache_get))) [
      | inl read ↦
          let (key, is) = find-Current id s.db s.cache {c = c} (ground arith) h in
          let (e, row, shown, same) = is in
          let there = published_event-found env id s.db works (rw key at row) shown in
          rw there (ap ok same)
      | inr unread ↦ absurd (ground arith)
    ]

-- With a current cache, the public read answers what the database alone would.
pub get_public_event-current :
    (env : Env) (id : ℕ) (s : Site)
    → env.fault call_get_event_by_id ≡ false
    → Fresh s
    → (get_public_event env id s).0 ≡ answer_of (published_event env id s.db)
unfolding get_public_event
get_public_event-current env id s works h =
    answer_public-current env id (hit env id s.cache) s works refl h
