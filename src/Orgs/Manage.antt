-- ===== src/Orgs/Manage.antt =====
-- internal/organization/service/org_service.go: creating, editing, listing and deleting
-- organizations. The derived policies of internal/iam and stored assets are written after the
-- commit, best effort, and are left out.
use rallya.Common.{
  ℕ, zero, suc, ◌+◌, String, Bytes, codes, is_nil, is_empty, trim_space, Bool, true, false, not,
  ◌&&◌, Option, none, some, List, [], ◌∷◌, ◌++◌, Tx, Result, ok, err, ◌>>=◌, ◌>>◌, raise_if,
  map_err, pure, if◌then◌else◌, take, gets,
}
use rallya.Model.Organization.{Organization, Membership, owner, admin}
use rallya.Model.Audit.{Entry}
use rallya.Store.{Db, DbError, Env, not_found, emit_tx}
use rallya.Orgs.Slugs.{is_slug, slugify, decimal}
use rallya.Orgs.Types.{
  OrgError, OrgView, call_err, slug_err, to_org, invalid_name, invalid_slug, slug_taken, internal,
}
use rallya.Orgs.Rows.{
  create_org_row, update_org_row, delete_org_row, get_org_by_slug, get_org_by_id,
  create_membership_row, list_memberships, list_user_memberships,
}
use rallya.Orgs.Access.{require_role}

abbrev pub org_entry : ℕ → ℕ → String → String → ℕ → Entry
org_entry org actor action object_type id = record {
  org_id = some org;
  actor_id = some actor;
  action = action;
  object_type = object_type;
  object_id = some id;
}

abbrev pub numbered : Bytes → ℕ → Bytes
numbered base i = base ++ 45 ∷ decimal i

-- The random fallback: the first six characters of a token.
abbrev pub with_suffix : Bytes → Option Bytes → Result OrgError Bytes
with_suffix base none = err internal
with_suffix base (some raw) = ok (base ++ 45 ∷ take 6 raw)

abbrev pub random_slug : Env → Bytes → Result OrgError Bytes
random_slug env base = with_suffix base env.slug_token

-- Whether a slug is free, as `GetOrgBySlug` tells it.
abbrev pub told_free : Result DbError (Organization × Db) → Result OrgError Bool
told_free (ok r) = ok false
told_free (err not_found) = ok true
told_free (err e) = err internal

abbrev pub probe : Env → Bytes → Db → Result OrgError Bool
unfolding get_org_by_slug
probe env slug db = told_free (get_org_by_slug env slug db)

-- A slug that is free, or what the rest of the search gives.
abbrev pub if_free : Result OrgError Bool → Bytes → Result OrgError Bytes → Result OrgError Bytes
if_free (ok true) slug rest = ok slug
if_free (ok false) slug rest = rest
if_free (err e) slug rest = err e

-- The numbered slugs from `i` on, at most so many of them.
abbrev pub probe_from : Env → Bytes → ℕ → ℕ → Db → Result OrgError Bytes
probe_from env base i zero db = random_slug env base
probe_from env base i (suc left) db =
    if_free (probe env (numbered base i) db) (numbered base i) (probe_from env base (i + 1) left db)

-- `uniqueSlug`: base, base-2, ..., base-99, then a random suffix.
unfoldable pub unique_slug : Env → Bytes → Db → Result OrgError Bytes
unique_slug env base db = if_free (probe env base db) base (probe_from env base 2 98 db)

abbrev pub logo_of : String → Option String
logo_of logo = if is_empty (trim_space logo) then none else some logo

abbrev pub new_org : Env → ℕ → String → Bytes → String → Organization
new_org env creator name slug logo = record {
  id = env.new_id;
  name = trim_space name;
  slug = slug;
  logo_url = logo_of logo;
  created_by = some creator;
  deleted = false;
}

abbrev pub first_owner : Env → ℕ → Membership
first_owner env creator = record {
  id = env.unit_id 0;
  org_id = env.new_id;
  user_id = creator;
  role = owner;
  notify_events = true;
}

-- The transaction of `CreateOrg`.
unfoldable pub insert_org : Env → ℕ → Organization → Tx Db OrgError OrgView
unfolding create_org_row create_membership_row to_org
insert_org env creator o = do
  map_err slug_err (create_org_row env o)
  map_err call_err (create_membership_row env (first_owner env creator))
  emit_tx env internal (org_entry o.id creator "org.created" "organization" o.id)
  pure (to_org o owner)

abbrev pub retry :
    Result OrgError (OrgView × Db) → Result OrgError (OrgView × Db) → Result OrgError (OrgView × Db)
retry (ok r) again = ok r
retry (err slug_taken) again = again
retry (err e) again = err e

abbrev pub attempt :
    Env
    → ℕ
    → String
    → String
    → Db
    → Result OrgError Bytes
    → Result OrgError (OrgView × Db)
    → Result OrgError (OrgView × Db)
attempt env creator name logo db (err e) again = err e
attempt env creator name logo db (ok slug) again =
    retry (insert_org env creator (new_org env creator name slug logo) db) again

-- The attempts with a derived slug: a lost race probes again.
abbrev pub attempts : Env → ℕ → String → Bytes → String → ℕ → Tx Db OrgError OrgView
attempts env creator name base logo zero db = err slug_taken
attempts env creator name base logo (suc left) db =
    attempt env creator name logo db (unique_slug env base db)
      (attempts env creator name base logo left db)

abbrev pub base_slug : Env → String → Bytes
base_slug env name = let base = slugify env name in if is_nil base then codes "org" else base

-- An explicit slug, as it is stored.
abbrev pub lowered : Env → String → Bytes
lowered env slug = codes (env.to_lower (trim_space slug))

-- `CreateOrg`
unfoldable pub create_org : Env → ℕ → String → String → String → Tx Db OrgError OrgView
unfolding unique_slug insert_org slugify
create_org env creator name slug logo = do
  raise_if (is_empty (trim_space name)) invalid_name
  elim (is_empty (trim_space slug)) [
    | true ↦ attempts env creator (trim_space name) (base_slug env (trim_space name)) logo 4
    | false ↦ do
      raise_if (not (is_slug (lowered env slug))) invalid_slug
      insert_org env creator (new_org env creator name (lowered env slug) logo)
  ]

abbrev pub renamed : String → Organization → Organization
renamed name o = record o { name = if is_empty name then o.name else trim_space name }

abbrev pub reslugged : Env → String → Organization → Organization
reslugged env slug o = record o { slug = if is_empty slug then o.slug else lowered env slug }

-- `UpdateOrg`
unfoldable pub update_org : Env → ℕ → String → String → String → String → Tx Db OrgError OrgView
unfolding require_role update_org_row to_org
update_org env user ref name slug logo = do
  om ← require_role env user ref admin
  raise_if (not (is_empty slug) && not (is_slug (lowered env slug))) invalid_slug
  let u = record (reslugged env slug (renamed name om.0)) { logo_url = logo_of logo }
  map_err slug_err (update_org_row env u)
  emit_tx env internal (org_entry u.id user "org.updated" "organization" u.id)
  pure (to_org u om.1.role)

-- `DeleteOrg`; the list of members is read for the policies only.
unfoldable pub delete_org : Env → ℕ → String → Tx Db OrgError (Unit {0})
unfolding require_role delete_org_row list_memberships
delete_org env user ref = do
  om ← require_role env user ref owner
  members ← map_err call_err (list_memberships env om.0.id 100000)
  emit_tx env internal (org_entry om.0.id user "org.deleted" "organization" om.0.id)
  map_err call_err (delete_org_row env om.0.id)

-- One row of a user's list: an organization that is gone is left out.
abbrev pub with_org : Result DbError (Organization × Db) → Membership → List OrgView → List OrgView
unfolding to_org
with_org (ok r) m rest = to_org r.0 m.role ∷ rest
with_org (err e) m rest = rest

abbrev pub orgs_of : Env → List Membership → Db → List OrgView
unfolding get_org_by_id to_org
orgs_of env [] db = []
orgs_of env (m ∷ ms) db = with_org (get_org_by_id env m.org_id db) m (orgs_of env ms db)

-- `ListMemberships` of the service, and `ListUserOrgs`.
unfoldable pub list_user_orgs : Env → ℕ → Tx Db OrgError (List OrgView)
unfolding list_user_memberships get_org_by_id to_org
list_user_orgs env user = do
  ms ← map_err call_err (list_user_memberships env user)
  views ← gets (orgs_of env ms)
  pure views
