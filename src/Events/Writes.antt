-- ===== src/Events/Writes.antt =====
-- internal/event/service/event_service.go: what each committed write does to the events.
use rallya.Common.{
  ℕ, ◌≡◌, refl, ◌∙◌, String, trim_space, true, not, arith, ok, update_first, map_err, map_err-eq-ok,
  read-eq-ok, guard-eq-ok, bind-eq-ok, some_and, is_empty,
}
use rallya.Common.Int.{is_positive}
use rallya.Model.Event.{Event, EventStatus, status_eq}
use rallya.Store.{Db, Env, emit_tx}
use rallya.Orgs.Slugs.{is_slug}
use rallya.Orgs.Manage.{lowered}
use rallya.Events.Types.{
  call_err, slug_err, internal, invalid_status, invalid_title, invalid_slug, invalid_dates,
  invalid_cap,
}
use rallya.Events.Rows.{has_event, update_event_row, delete_event_row, dates_ok}
use rallya.Events.Create.{event_entry}
use rallya.Events.Lifecycle.{
  UpdateInput, locate, save_status, edited, update_event, transition, delete_event, action_of,
}
use rallya.Events.Apart.{
  Apart, locate-Reads, emit_tx-events, update_event_row-eq-ok, delete_event_row-eq-ok,
  update_first-Apart,
}

-- A write that saves `e` over its row.
abbrev pub Saves : Event → Db → Db → Type 0
Saves e db db' = db'.events ≡ update_first (has_event e.id) (λ _. e) db.events

pub Saves-Apart : (e : Event) (db db' : Db) → Saves e db db' → Apart e.id db.events db'.events
Saves-Apart e db db' saved = rw saved (update_first-Apart e.id (λ _. e) db.events (λ x h. refl))

pub save_status-eq-ok :
    (env : Env) (org actor : ℕ) (action : String) (e : Event) (db : Db) {r : Unit {0} × Db}
    → save_status env org actor action e db ≡ ok r
    → Saves e db r.1 × (r.1.event_mails ≡ db.event_mails)
save_status-eq-ok env org actor action e db h =
    let (u, e0, h0) = bind-eq-ok (map_err call_err (update_event_row env e) db) _ h in
    let (rows, mails) =
      update_event_row-eq-ok env e db (map_err-eq-ok call_err (update_event_row env e) db e0) in
    let (rows', mails') = emit_tx-events env (event_entry org actor action e.id) u.1 h0 in
    (rows' ∙ rows, mails' ∙ mails)

-- A change of status is of an event that had the status it starts from.
pub transition-eq-ok :
    (env : Env) (actor : ℕ) (org_ref ref : String) (from to : EventStatus) (db : Db)
    {r : Event × Db}
    → transition env actor org_ref ref from to db ≡ ok r
    → (oe : ℕ × Event) × (locate env org_ref ref db ≡ ok (oe, db))
      × (status_eq oe.1.status from ≡ true)
      × (r.0 ≡ record oe.1 { status = to })
      × Saves r.0 db r.1
unfolding transition
transition-eq-ok env actor org_ref ref from to db {r = r} h =
    let (oe, e0, h0) = read-eq-ok (locate env org_ref ref) _ db (locate-Reads env org_ref ref) h in
    let (was, h1) = guard-eq-ok (not (status_eq oe.1.status from)) invalid_status _ db h0 in
    let e : Event = record oe.1 { status = to } in
    let (v, e2, h2) = bind-eq-ok (save_status env oe.0 actor (action_of to) e db) _ h1 in
    let (rows, mails) = save_status-eq-ok env oe.0 actor (action_of to) e db e2 in
    let answer : r.0 ≡ e = ground arith in
    let store : r.1 ≡ v.1 = ground arith in (oe, e0, ground arith, answer, rw (answer, store) rows)

pub transition-Apart :
    (env : Env) (actor : ℕ) (org_ref ref : String) (from to : EventStatus) (db : Db)
    {r : Event × Db}
    → transition env actor org_ref ref from to db ≡ ok r
    → Apart r.0.id db.events r.1.events
transition-Apart env actor org_ref ref from to db {r = r} h =
    let (oe, e0, was, answer, rows) = transition-eq-ok env actor org_ref ref from to db h in
    Saves-Apart r.0 db r.1 rows

pub update_event-Apart :
    (env : Env) (actor : ℕ) (org_ref ref : String) (i : UpdateInput) (db : Db) {r : Event × Db}
    → update_event env actor org_ref ref i db ≡ ok r
    → Apart r.0.id db.events r.1.events
unfolding update_event
update_event-Apart env actor org_ref ref i db {r = r} h =
    let (oe, e0, h0) = read-eq-ok (locate env org_ref ref) _ db (locate-Reads env org_ref ref) h in
    let u = edited env i oe.1 in
    let (g1, h1) =
      guard-eq-ok (some_and i.title (λ t. is_empty (trim_space t))) invalid_title _ db h0 in
    let (g2, h2) =
      guard-eq-ok (some_and i.slug (λ s. not (is_slug (lowered env s)))) invalid_slug _ db h1 in
    let (g3, h3) = guard-eq-ok (not (dates_ok u.starts_at u.ends_at)) invalid_dates _ db h2 in
    let (g4, h4) =
      guard-eq-ok (some_and i.capacity (λ n. not (is_positive n))) invalid_cap _ db h3 in
    let (v, e5, h5) = bind-eq-ok (map_err slug_err (update_event_row env u) db) _ h4 in
    let (w, e6, h6) =
      bind-eq-ok (emit_tx env internal (event_entry oe.0 actor "event.updated" u.id) v.1) _ h5 in
    let (rows, mails) =
      update_event_row-eq-ok env u db (map_err-eq-ok slug_err (update_event_row env u) db e5) in
    let (rows', mails') = emit_tx-events env (event_entry oe.0 actor "event.updated" u.id) v.1 e6 in
    let answer : r.0 ≡ u = ground arith in
    let store : r.1 ≡ w.1 = ground arith in rw (answer, store) (Saves-Apart u db w.1 (rows' ∙ rows))

pub delete_event-Apart :
    (env : Env) (actor : ℕ) (org_ref ref : String) (db : Db) {r : Event × Db}
    → delete_event env actor org_ref ref db ≡ ok r
    → Apart r.0.id db.events r.1.events
unfolding delete_event
delete_event-Apart env actor org_ref ref db {r = r} h =
    let (oe, e0, h0) = read-eq-ok (locate env org_ref ref) _ db (locate-Reads env org_ref ref) h in
    let (v, e1, h1) =
      bind-eq-ok (emit_tx env internal (event_entry oe.0 actor "event.deleted" oe.1.id) db) _ h0 in
    let (w, e2, h2) = bind-eq-ok (map_err call_err (delete_event_row env oe.1.id) v.1) _ h1 in
    let (rows, mails) = emit_tx-events env (event_entry oe.0 actor "event.deleted" oe.1.id) db e1 in
    let rows' =
      delete_event_row-eq-ok env oe.1.id v.1
        (map_err-eq-ok call_err (delete_event_row env oe.1.id) v.1 e2) in
    let answer : r.0 ≡ oe.1 = ground arith in
    let store : r.1 ≡ w.1 = ground arith in
    rw (answer, store, rows', rows)
      (update_first-Apart oe.1.id (λ e. record e { deleted = true }) db.events (λ x same. same))
