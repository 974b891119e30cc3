-- ===== src/Events/Lifecycle.antt =====
-- internal/event/service/event_service.go: editing, publishing, cancelling and deleting an event.
-- Stored assets are dropped after the commit, best effort, and are left out.
use rallya.Common.{
  ℕ, String, is_empty, trim_space, Bool, not, ◌&&◌, Option, none, List, [], ◌∷◌, ◌++◌, Tx, ◌>>=◌,
  ◌>>◌, raise_if, map_err, pure, modify, if◌then◌else◌, some_and,
}
use rallya.Common.Int.{ℤ, is_positive}
use rallya.Ticketing.Admin.{given, given_or}
use mathlib.Core.Option.{map as map_option}
use rallya.Model.Event.{Event, EventStatus, status_eq, draft, published, cancelled}
use rallya.Store.{Db, Env, EventMail, emit_tx, enqueue}
use rallya.Orgs.Slugs.{is_slug}
use rallya.Orgs.Access.{MemberNotify, resolve_org_id, org_name}
use rallya.Orgs.Members.{notify_targets}
use rallya.Orgs.Manage.{lowered}
use rallya.Events.Types.{
  EventError, call_err, org_err, passed_on, slug_err, invalid_slug, invalid_title, invalid_dates,
  invalid_cap, invalid_status, internal,
}
use rallya.Events.Rows.{update_event_row, delete_event_row, dates_ok}
use rallya.Events.Create.{event_entry, resolve_event}

-- `UpdateInput`
pub record UpdateInput : Type 0 where
  pub title : Option String
  pub slug : Option String
  pub description : Option String
  pub venue : Option String
  pub location : Option String
  pub starts_at : Option ℕ
  pub ends_at : Option ℕ
  pub capacity : Option ℤ
  pub clear_cover : Bool

abbrev pub edited : Env → UpdateInput → Event → Event
edited env i e = record e {
  title = given (map_option trim_space i.title) e.title;
  slug = given (map_option (lowered env) i.slug) e.slug;
  description = given_or i.description e.description;
  venue = given_or i.venue e.venue;
  location = given_or i.location e.location;
  starts_at = given_or i.starts_at e.starts_at;
  ends_at = given_or i.ends_at e.ends_at;
  capacity = given_or i.capacity e.capacity;
  cover_url = if i.clear_cover then none else e.cover_url;
}

-- `ResolveOrgID`, then `resolveEvent`.
abbrev pub locate : Env → String → String → Tx Db EventError (ℕ × Event)
locate env org_ref event_ref = do
  org_id ← map_err org_err (resolve_org_id env org_ref)
  e ← resolve_event env org_id event_ref
  pure (org_id, e)

-- `UpdateEvent`, with `saveWithAudit`.
unfoldable pub update_event : Env → ℕ → String → String → UpdateInput → Tx Db EventError Event
unfolding resolve_org_id resolve_event update_event_row
update_event env actor org_ref event_ref i = do
  oe ← locate env org_ref event_ref
  raise_if (some_and i.title (λ t. is_empty (trim_space t))) invalid_title
  raise_if (some_and i.slug (λ s. not (is_slug (lowered env s)))) invalid_slug
  let u = edited env i oe.1
  raise_if (not (dates_ok u.starts_at u.ends_at)) invalid_dates
  raise_if (some_and i.capacity (λ n. not (is_positive n))) invalid_cap
  map_err slug_err (update_event_row env u)
  emit_tx env internal (event_entry oe.0 actor "event.updated" u.id)
  pure u

-- A row with its status set: its save and its audit entry.
abbrev pub save_status : Env → ℕ → ℕ → String → Event → Tx Db EventError (Unit {0})
save_status env org_id actor action e = do
  map_err call_err (update_event_row env e)
  emit_tx env internal (event_entry org_id actor action e.id)

-- `enqueueTx` of one announcement.
abbrev pub announce : Env → Event → String → MemberNotify → Tx Db EventError (Unit {0})
announce env e org_name t = do
  raise_if (env.mailer_wired && env.fault enqueue) internal
  let mail : EventMail = record {
    event_id = e.id;
    event_title = e.title;
    org_name = org_name;
    email = t.email;
    name = t.name;
  }
  modify (λ db. record db {
    event_mails = if env.mailer_wired then db.event_mails ++ mail ∷ [] else db.event_mails;
  })

abbrev pub announce_all : Env → Event → String → List MemberNotify → Tx Db EventError (Unit {0})
announce_all env e org_name [] = pure tt
announce_all env e org_name (t ∷ ts) = announce env e org_name t >> announce_all env e org_name ts

-- `Publish`
unfoldable pub publish : Env → ℕ → String → String → Tx Db EventError Event
unfolding resolve_org_id resolve_event update_event_row notify_targets org_name
publish env actor org_ref event_ref = do
  oe ← locate env org_ref event_ref
  raise_if (not (status_eq oe.1.status draft)) invalid_status
  let e = record oe.1 { status = published }
  targets ← map_err passed_on (notify_targets env oe.0)
  name ← map_err call_err (org_name env oe.0)
  save_status env oe.0 actor "event.published" e
  announce_all env e name targets
  pure e

abbrev pub action_of : EventStatus → String
action_of to = if status_eq to cancelled then "event.cancelled" else "event.unpublished"

-- `transition`
unfoldable pub transition :
    Env → ℕ → String → String → EventStatus → EventStatus → Tx Db EventError Event
unfolding resolve_org_id resolve_event update_event_row
transition env actor org_ref event_ref from to = do
  oe ← locate env org_ref event_ref
  raise_if (not (status_eq oe.1.status from)) invalid_status
  let e = record oe.1 { status = to }
  save_status env oe.0 actor (action_of to) e
  pure e

-- `Unpublish`
abbrev pub unpublish : Env → ℕ → String → String → Tx Db EventError Event
unpublish env actor org_ref event_ref = transition env actor org_ref event_ref published draft

-- `Cancel`
abbrev pub cancel : Env → ℕ → String → String → Tx Db EventError Event
cancel env actor org_ref event_ref = transition env actor org_ref event_ref published cancelled

-- `DeleteEvent`
unfoldable pub delete_event : Env → ℕ → String → String → Tx Db EventError Event
unfolding resolve_org_id resolve_event delete_event_row
delete_event env actor org_ref event_ref = do
  oe ← locate env org_ref event_ref
  emit_tx env internal (event_entry oe.0 actor "event.deleted" oe.1.id)
  map_err call_err (delete_event_row env oe.1.id)
  pure oe.1
