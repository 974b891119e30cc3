-- ===== src/Events/Apart.antt =====
-- internal/event: what a committed write of an event leaves of the others.
use rallya.Common.{
  ℕ, ◌≡◌, inl, inr, refl, ap, String, codes, trim_space, true, false, some, List, [], ◌∷◌, arith,
  ok, ◌==◌, find, update_first, Bool-cases, Option-cases, if◌then◌else◌, map_err, Reads,
  Reads-map_err, read-eq-ok,
}
use rallya.Model.Event.{Event}
use rallya.Model.Audit.{Entry}
use rallya.Store.{Db, Env, emit_tx}
use rallya.Orgs.Access.{resolve_org_id, resolve_org}
use rallya.Orgs.Lookups.{resolve_org-Reads}
use rallya.Events.Types.{org_err, internal}
use rallya.Events.Rows.{
  has_event, update_event_row, delete_event_row, get_event_by_id, get_event_by_slug,
}
use rallya.Events.Create.{resolve_event}
use rallya.Events.Lifecycle.{locate}

resolve_event-Reads : (env : Env) (org : ℕ) (ref : String) → Reads (resolve_event env org ref)
unfolding resolve_event get_event_by_id get_event_by_slug
resolve_event-Reads env org ref s r h =
    elim (Option-cases (env.parse_uuid (codes (trim_space ref)))) [
      | inl slug ↦ ground arith
      | inr (id, uuid) ↦ ground arith
    ]

pub resolve_org_id-Reads : (env : Env) (ref : String) → Reads (resolve_org_id env ref)
unfolding resolve_org_id
resolve_org_id-Reads env ref s r h =
    let (o, e0, h0) = read-eq-ok (resolve_org env ref) _ s (resolve_org-Reads env ref) h in
    ground arith

pub locate-Reads : (env : Env) (org_ref ref : String) → Reads (locate env org_ref ref)
locate-Reads env org_ref ref s r h =
    let (org, e0, h0) =
      read-eq-ok (map_err org_err (resolve_org_id env org_ref)) _ s
        (Reads-map_err org_err (resolve_org_id env org_ref) (resolve_org_id-Reads env org_ref)) h in
    let (e, e1, h1) =
      read-eq-ok (resolve_event env org ref) _ s (resolve_event-Reads env org ref) h0 in
    ground arith

pub emit_tx-events :
    (env : Env) (e : Entry) (db : Db) {r : Unit {0} × Db}
    → emit_tx env internal e db ≡ ok r
    → (r.1.events ≡ db.events) × (r.1.event_mails ≡ db.event_mails)
emit_tx-events env e db h = (ground arith, ground arith)

pub update_event_row-eq-ok :
    (env : Env) (e : Event) (db : Db) {r : Unit {0} × Db}
    → update_event_row env e db ≡ ok r
    → (r.1.events ≡ update_first (has_event e.id) (λ _. e) db.events)
      × (r.1.event_mails ≡ db.event_mails)
unfolding update_event_row
update_event_row-eq-ok env e db h = (ground arith, ground arith)

pub delete_event_row-eq-ok :
    (env : Env) (id : ℕ) (db : Db) {r : Unit {0} × Db}
    → delete_event_row env id db ≡ ok r
    → r.1.events ≡ update_first (has_event id) (λ e. record e { deleted = true }) db.events
unfolding delete_event_row
delete_event_row-eq-ok env id db h = ground arith

-- Every event but one is found as before.
abbrev pub Apart : ℕ → List Event → List Event → Type 0
Apart id es fs = (k : ℕ) → (k == id) ≡ false → find (has_event k) fs ≡ find (has_event k) es

apart_step :
    (k id : ℕ) (f : Event → Event) (es : List Event)
    → (k == id) ≡ false
    → ((e : Event) → e.id ≡ id → (f e).id ≡ id)
    → find (has_event k) (update_first (has_event id) f es) ≡ find (has_event k) es
apart_step k id f [] other keeps = refl
apart_step k id f (e ∷ es) other keeps = elim (Bool-cases (has_event id e)) [
  | inl here ↦
      let same : e.id ≡ id = ground arith in
      let kept : (f e).id ≡ id = keeps e same in
      let before : has_event k e ≡ false = ground arith in
      let after : has_event k (f e) ≡ false = ground arith in rw (here, before, after) refl
  | inr further ↦
      rw further (ap (λ o. if has_event k e then some e else o) (apart_step k id f es other keeps))
]

pub update_first-Apart :
    (id : ℕ) (f : Event → Event) (es : List Event)
    → ((e : Event) → e.id ≡ id → (f e).id ≡ id)
    → Apart id es (update_first (has_event id) f es)
update_first-Apart id f es keeps k other = apart_step k id f es other keeps
