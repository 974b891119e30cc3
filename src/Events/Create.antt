-- ===== src/Events/Create.antt =====
-- internal/event/service/event_service.go: `CreateEvent`, with `resolveEvent` and `uniqueSlug`.
use rallya.Common.{
  ℕ, zero, suc, ◌+◌, String, Bytes, codes, is_nil, is_empty, trim_space, true, false, not, Option,
  none, some, ◌∷◌, ◌++◌, ◌==◌, leb, Tx, Result, ok, err, ◌>>=◌, ◌>>◌, raise_if, map_err, pure, gets,
  if◌then◌else◌, take, some_and,
}
use rallya.Common.Int.{is_positive}
use rallya.Model.Event.{Event, draft}
use rallya.Model.Audit.{Entry}
use rallya.Store.{Db, DbError, Env, not_found, emit_tx}
use rallya.Subscription.Entitlements.{entitlement}
use rallya.Orgs.Slugs.{is_slug, slugify}
use rallya.Orgs.Access.{resolve_org_id}
use rallya.Orgs.Manage.{numbered, lowered}
use rallya.Events.Types.{
  EventError, CreateInput, call_err, org_err, event_err, slug_err, event_not_found, slug_taken,
  invalid_slug, invalid_title, invalid_dates, invalid_cap, upgrade_required, internal,
}
use rallya.Events.Rows.{
  create_event_row, get_event_by_id, get_event_by_slug, count_active_by_org, dates_ok,
}

abbrev pub event_entry : ℕ → ℕ → String → ℕ → Entry
event_entry org actor action id = record {
  org_id = some org;
  actor_id = some actor;
  action = action;
  object_type = "event";
  object_id = some id;
}

-- `resolveEvent`: a UUID of an event of this organization, or a slug.
unfoldable pub resolve_event : Env → ℕ → String → Tx Db EventError Event
unfolding get_event_by_id get_event_by_slug
resolve_event env org_id ref = elim (env.parse_uuid (codes (trim_space ref))) [
  | some id ↦ do
    e ← map_err event_err (get_event_by_id env id)
    raise_if (not (e.org_id == org_id)) event_not_found
    pure e
  | none ↦ map_err event_err (get_event_by_slug env org_id (codes (env.to_lower (trim_space ref))))
]

abbrev pub with_suffix : Bytes → Option Bytes → Result EventError Bytes
with_suffix base none = err internal
with_suffix base (some raw) = ok (base ++ 45 ∷ take 6 raw)

-- A slug if `GetEventBySlug` does not find it, or what the rest of the search gives.
abbrev pub unless_found :
    Result DbError (Event × Db) → Bytes → Result EventError Bytes → Result EventError Bytes
unless_found (ok r) slug rest = rest
unless_found (err not_found) slug rest = ok slug
unless_found (err e) slug rest = err internal

-- The numbered slugs from `i` on, at most so many of them.
abbrev pub probe_from : Env → ℕ → Bytes → ℕ → ℕ → Db → Result EventError Bytes
unfolding get_event_by_slug
probe_from env org_id base i zero db = with_suffix base env.slug_token
probe_from env org_id base i (suc left) db =
    unless_found (get_event_by_slug env org_id (numbered base i) db) (numbered base i)
      (probe_from env org_id base (i + 1) left db)

-- `uniqueSlug`: base, base-2, ..., base-99, then a random suffix.
unfoldable pub unique_slug : Env → ℕ → Bytes → Db → Result EventError Bytes
unfolding get_event_by_slug
unique_slug env org_id base db =
    unless_found (get_event_by_slug env org_id base db) base (probe_from env org_id base 2 98 db)

abbrev pub new_event : Env → ℕ → ℕ → CreateInput → Bytes → Event
new_event env org_id creator i slug = record {
  id = env.new_id;
  org_id = org_id;
  title = trim_space i.title;
  slug = slug;
  description = i.description;
  venue = i.venue;
  location = i.location;
  starts_at = i.starts_at;
  ends_at = i.ends_at;
  capacity = i.capacity;
  cover_url = none;
  status = draft;
  created_by = some creator;
  deleted = false;
}

-- The transaction of `CreateEvent`.
unfoldable pub insert_event : Env → ℕ → ℕ → CreateInput → Bytes → Tx Db EventError Event
unfolding create_event_row
insert_event env org_id creator i slug = do
  let e = new_event env org_id creator i slug
  map_err slug_err (create_event_row env e)
  emit_tx env internal (event_entry org_id creator "event.created" e.id)
  pure e

abbrev pub retry :
    Result EventError (Event × Db) → Result EventError (Event × Db) → Result EventError (Event × Db)
retry (ok r) again = ok r
retry (err slug_taken) again = again
retry (err e) again = err e

abbrev pub attempt :
    Env
    → ℕ
    → ℕ
    → CreateInput
    → Db
    → Result EventError Bytes
    → Result EventError (Event × Db)
    → Result EventError (Event × Db)
attempt env org_id creator i db (err e) again = err e
attempt env org_id creator i db (ok slug) again =
    retry (insert_event env org_id creator i slug db) again

-- The attempts with a derived slug: a lost race probes again.
abbrev pub attempts : Env → ℕ → ℕ → CreateInput → Bytes → ℕ → Tx Db EventError Event
attempts env org_id creator i base zero db = err slug_taken
attempts env org_id creator i base (suc left) db =
    attempt env org_id creator i db (unique_slug env org_id base db)
      (attempts env org_id creator i base left db)

abbrev pub base_slug : Env → String → Bytes
base_slug env title = let base = slugify env title in if is_nil base then codes "event" else base

-- The plan's limit on events that are not cancelled.
abbrev pub check_quota : Env → ℕ → Tx Db EventError (Unit {0})
check_quota env org_id = do
  n ← map_err call_err (count_active_by_org env org_id)
  ent ← gets (entitlement env org_id)
  raise_if (leb ent.limits.max_events n) upgrade_required

-- `CreateEvent`
unfoldable pub create_event : Env → ℕ → String → CreateInput → Tx Db EventError Event
unfolding resolve_org_id unique_slug insert_event slugify count_active_by_org
create_event env creator org_ref i = do
  org_id ← map_err org_err (resolve_org_id env org_ref)
  raise_if (is_empty (trim_space i.title)) invalid_title
  check_quota env org_id
  raise_if (not (dates_ok i.starts_at i.ends_at)) invalid_dates
  raise_if (some_and i.capacity (λ n. not (is_positive n))) invalid_cap
  elim (is_empty (trim_space i.slug)) [
    | true ↦ attempts env org_id creator i (base_slug env (trim_space i.title)) 4
    | false ↦ do
      raise_if (not (is_slug (lowered env i.slug))) invalid_slug
      insert_event env org_id creator i (lowered env i.slug)
  ]
