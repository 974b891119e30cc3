-- ===== src/Events/Days.antt =====
-- internal/event/service/event_service.go: a day of requests keeps the cache of public payloads in
-- step with the database.
use rallya.Common.{
  ℕ, zero, suc, ◌≡◌, ◌⊎◌, inl, inr, refl, String, Bytes, false, not, some, List, [], ◌∷◌, ◌++◌,
  arith, ok, err, Result, find, All, All-map, is_empty, trim_space, Bool-cases, map_err,
  map_err-eq-ok, Reads, Reads-map_err, read-eq-ok, guard-eq-ok, bind-eq-ok, some_and,
}
use rallya.Common.Int.{is_positive}
use rallya.Model.Event.{Event, published, draft, cancelled}
use rallya.Store.{Db, Env, emit_tx, get_event_by_id as call_get_event_by_id}
use rallya.Orgs.Slugs.{is_slug}
use rallya.Orgs.Access.{resolve_org_id}
use rallya.Orgs.Manage.{lowered}
use rallya.Events.Types.{
  EventError, CreateInput, org_err, slug_err, internal, invalid_title, invalid_dates, invalid_cap,
  invalid_slug, slug_taken,
}
use rallya.Events.Rows.{has_event, create_event_row, dates_ok, count_active_by_org}
use rallya.Events.Create.{
  create_event, insert_event, new_event, event_entry, attempts, attempt, retry, unique_slug,
  check_quota, base_slug,
}
use rallya.Events.Serve.{
  Site, Request, create, update, publish_it, unpublish_it, cancel_it, delete_it, cover, gallery,
  view, expire, serve, serve_all, without_purge, get_public_event, published_event,
}
use rallya.Events.Lifecycle.{update_event, publish, unpublish, cancel, delete_event}
use rallya.Events.Apart.{emit_tx-events, resolve_org_id-Reads}
use rallya.Events.Writes.{update_event-Apart, transition-Apart, delete_event-Apart}
use rallya.Events.Announced.{publish-Apart}
use rallya.Events.Gallery.{set_cover, add_gallery_images}
use rallya.Events.Pictures.{set_cover-Apart, add_gallery_images-Touches}
use rallya.Events.Caching.{
  IsCurrent, Fresh, Purges, then_purge-Fresh, then_purge_cloned-Fresh, get_public_event-Fresh,
  drop-Current, get_public_event-current, answer_of,
}

-- Events that are found stay found.
abbrev Keeps : List Event → List Event → Type 0
Keeps es fs = (k : ℕ) (e : Event) → find (has_event k) es ≡ some e → find (has_event k) fs ≡ some e

append-Keeps : (es : List Event) (x : Event) → Keeps es (es ++ x ∷ [])
append-Keeps [] x k e h = absurd (ground arith)
append-Keeps (y ∷ es) x k e h = elim (Bool-cases (has_event k y)) [
  | inl here ↦ rw here (ground arith)
  | inr further ↦ rw further (append-Keeps es x k e (ground arith))
]

create_event_row-eq-ok :
    (env : Env) (e : Event) (db : Db) {r : Unit {0} × Db}
    → create_event_row env e db ≡ ok r
    → r.1.events ≡ db.events ++ e ∷ []
unfolding create_event_row
create_event_row-eq-ok env e db h = ground arith

insert_event-Keeps :
    (env : Env) (org creator : ℕ) (i : CreateInput) (slug : Bytes) (db : Db) {r : Event × Db}
    → insert_event env org creator i slug db ≡ ok r
    → Keeps db.events r.1.events
unfolding insert_event
insert_event-Keeps env org creator i slug db {r = r} h =
    let e = new_event env org creator i slug in
    let entry = event_entry org creator "event.created" e.id in
    let (v, e0, h0) = bind-eq-ok (map_err slug_err (create_event_row env e) db) _ h in
    let (w, e1, h1) = bind-eq-ok (emit_tx env internal entry v.1) _ h0 in
    let rows =
      create_event_row-eq-ok env e db (map_err-eq-ok slug_err (create_event_row env e) db e0) in
    let (rows', mails) = emit_tx-events env entry v.1 e1 in
    let store : r.1 ≡ w.1 = ground arith in rw (store, rows', rows) (append-Keeps db.events e)

retry-eq-ok :
    (x again : Result EventError (Event × Db)) {r : Event × Db}
    → retry x again ≡ ok r
    → (x ≡ ok r) ⊎ (again ≡ ok r)
retry-eq-ok (ok y) again h = inl h
retry-eq-ok (err slug_taken) again h = inr h
retry-eq-ok (err e) again h = absurd (ground arith)

attempt-eq-ok :
    (env : Env) (org creator : ℕ) (i : CreateInput) (db : Db) (probed : Result EventError Bytes)
    (again : Result EventError (Event × Db)) {r : Event × Db}
    → attempt env org creator i db probed again ≡ ok r
    → ((slug : Bytes) × (insert_event env org creator i slug db ≡ ok r)) ⊎ (again ≡ ok r)
attempt-eq-ok env org creator i db (err e) again h = absurd (ground arith)
attempt-eq-ok env org creator i db (ok slug) again h =
    elim (retry-eq-ok (insert_event env org creator i slug db) again h) [
      | inl inserted ↦ inl (slug, inserted)
      | inr later ↦ inr later
    ]

attempts-eq-ok :
    (env : Env) (org creator : ℕ) (i : CreateInput) (base : Bytes) (left : ℕ) (db : Db)
    {r : Event × Db}
    → attempts env org creator i base left db ≡ ok r
    → (slug : Bytes) × (insert_event env org creator i slug db ≡ ok r)
attempts-eq-ok env org creator i base zero db h = absurd (ground arith)
attempts-eq-ok env org creator i base (suc left) db h =
    elim (attempt-eq-ok env org creator i db (unique_slug env org base db)
      (attempts env org creator i base left db) h) [
        | inl inserted ↦ inserted
        | inr later ↦ attempts-eq-ok env org creator i base left db later
      ]

check_quota-Reads : (env : Env) (org : ℕ) → Reads (check_quota env org)
unfolding count_active_by_org
check_quota-Reads env org s r h = ground arith

create_event-Keeps :
    (env : Env) (creator : ℕ) (org_ref : String) (i : CreateInput) (db : Db) {r : Event × Db}
    → create_event env creator org_ref i db ≡ ok r
    → Keeps db.events r.1.events
unfolding create_event
create_event-Keeps env creator org_ref i db {r = r} h =
    let (org, e0, h0) =
      read-eq-ok (map_err org_err (resolve_org_id env org_ref)) _ db
        (Reads-map_err org_err (resolve_org_id env org_ref) (resolve_org_id-Reads env org_ref)) h in
    let (g1, h1) = guard-eq-ok (is_empty (trim_space i.title)) invalid_title _ db h0 in
    let (room, e2, h2) = read-eq-ok (check_quota env org) _ db (check_quota-Reads env org) h1 in
    let (g3, h3) = guard-eq-ok (not (dates_ok i.starts_at i.ends_at)) invalid_dates _ db h2 in
    let (g4, h4) =
      guard-eq-ok (some_and i.capacity (λ n. not (is_positive n))) invalid_cap _ db h3 in
    elim (Bool-cases (is_empty (trim_space i.slug))) [
      | inl derived ↦
          let base = base_slug env (trim_space i.title) in
          let tried : attempts env org creator i base 4 db ≡ ok r = rw derived at h4 in
          let (slug, inserted) = attempts-eq-ok env org creator i base 4 db tried in
          insert_event-Keeps env org creator i slug db inserted
      | inr explicit ↦
          let h5 = rw explicit at h4 in
          let (shaped, inserted) =
            guard-eq-ok (not (is_slug (lowered env i.slug))) invalid_slug _ db h5 in
          insert_event-Keeps env org creator i (lowered env i.slug) db inserted
    ]

without_purge-Fresh :
    (m : Result EventError (Event × Db)) (s : Site)
    → ((r : Event × Db) → m ≡ ok r → Keeps s.db.events r.1.events)
    → Fresh s
    → Fresh ((without_purge m s).1)
without_purge-Fresh (err e) s keeps h = h
without_purge-Fresh (ok r) s keeps h =
    All-map (IsCurrent s.db) (IsCurrent r.1) s.cache
      (λ c is. let (e, row, shown, same) = is in (e, keeps r refl c.key e row, shown, same)) h

serve-Fresh : (env : Env) (q : Request) (s : Site) → Purges env → Fresh s → Fresh (serve env q s)
unfolding serve
serve-Fresh env (create user org_ref i) s purges h =
    without_purge-Fresh (create_event env user org_ref i s.db) s
      (λ r e. create_event-Keeps env user org_ref i s.db e) h
serve-Fresh env (update user org_ref ref i) s purges h =
    then_purge-Fresh env (update_event env user org_ref ref i s.db) s purges
      (λ r e. update_event-Apart env user org_ref ref i s.db e) h
serve-Fresh env (publish_it user org_ref ref) s purges h =
    then_purge-Fresh env (publish env user org_ref ref s.db) s purges
      (λ r e. publish-Apart env user org_ref ref s.db e) h
serve-Fresh env (unpublish_it user org_ref ref) s purges h =
    then_purge-Fresh env (unpublish env user org_ref ref s.db) s purges
      (λ r e. transition-Apart env user org_ref ref published draft s.db e) h
serve-Fresh env (cancel_it user org_ref ref) s purges h =
    then_purge-Fresh env (cancel env user org_ref ref s.db) s purges
      (λ r e. transition-Apart env user org_ref ref published cancelled s.db e) h
serve-Fresh env (delete_it user org_ref ref) s purges h =
    then_purge-Fresh env (delete_event env user org_ref ref s.db) s purges
      (λ r e. delete_event-Apart env user org_ref ref s.db e) h
serve-Fresh env (cover org_ref ref u) s purges h =
    then_purge-Fresh env (set_cover env org_ref ref u s.db) s purges
      (λ r e. set_cover-Apart env org_ref ref u s.db e) h
serve-Fresh env (gallery org_ref ref us) s purges h =
    then_purge_cloned-Fresh env (add_gallery_images env org_ref ref us s.db) s purges
      (λ r e. add_gallery_images-Touches env org_ref ref us s.db e) h
serve-Fresh env (view id) s purges h = get_public_event-Fresh env id s h
serve-Fresh env (expire id) s purges h = drop-Current id s.db s.cache h

serve_all-Fresh :
    (qs : List (Env × Request)) (s : Site)
    → All (λ q. Purges q.0) qs
    → Fresh s
    → Fresh (serve_all qs s)
unfolding serve_all
serve_all-Fresh [] s purges h = h
serve_all-Fresh (q ∷ qs) s (works, rest) h =
    serve_all-Fresh qs (serve q.0 q.1 s) rest (serve-Fresh q.0 q.1 s works h)

-- The cache of public payloads is transparent: after any sequence of requests that create, edit,
-- publish, unpublish, cancel or delete an event, set its cover, add images to its gallery or read it
-- publicly, and of expiries, from an empty cache, served one after the other with a cache wired and
-- its deletions working, a public read answers what the database alone would, when its own lookup
-- works.
pub public_read-transparent :
    (qs : List (Env × Request)) (db : Db) (env : Env) (id : ℕ)
    → All (λ q. Purges q.0) qs
    → env.fault call_get_event_by_id ≡ false
    → let s = serve_all qs (record { db = db; cache = [] }) in
      (get_public_event env id s).0 ≡ answer_of (published_event env id s.db)
public_read-transparent qs db env id purges works =
    get_public_event-current env id (serve_all qs (record { db = db; cache = [] })) works
      (serve_all-Fresh qs (record { db = db; cache = [] }) purges tt)
