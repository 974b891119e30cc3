-- ===== src/Orgs/Access.antt =====
-- internal/organization/service: who may do what in an organization, `resolveOrg`, `membership`,
-- `requireRole` and `guardLastOwner`, with the questions that other domains ask.
use rallya.Common.{
  ℕ, String, codes, trim_space, Bool, true, false, none, some, ltb, leb, Tx, ◌>>=◌, ◌>>◌, raise_if,
  map_err, pure, Result, ok, err,
}
use rallya.Model.Organization.{Organization, Membership, MemberRole, admin, level, is_owner}
use rallya.Store.{Db, DbError, Env, not_found}
use rallya.Orgs.Types.{OrgError, OrgView, org_err, call_err, forbidden, last_owner, to_org}
use rallya.Orgs.Rows.{
  get_org_by_id, get_org_by_slug, get_membership, count_owners, set_notify_events,
}

-- `resolveOrg`: a UUID or a slug.
unfoldable pub resolve_org : Env → String → Tx Db OrgError Organization
unfolding get_org_by_id get_org_by_slug
resolve_org env ref = elim (env.parse_uuid (codes (trim_space ref))) [
  | some id ↦ map_err org_err (get_org_by_id env id)
  | none ↦ map_err org_err (get_org_by_slug env (codes (env.to_lower (trim_space ref))))
]

-- `membership`: an outsider is told that the organization does not exist.
unfoldable pub membership : Env → ℕ → String → Tx Db OrgError (Organization × Membership)
unfolding resolve_org get_membership
membership env user ref = do
  o ← resolve_org env ref
  m ← map_err org_err (get_membership env o.id user)
  pure (o, m)

-- `requireRole`
unfoldable pub require_role :
    Env → ℕ → String → MemberRole → Tx Db OrgError (Organization × Membership)
unfolding membership level
require_role env user ref min = do
  om ← membership env user ref
  raise_if (ltb (level om.1.role) (level min)) forbidden
  pure om

-- `guardLastOwner`
unfoldable pub guard_last_owner : Env → ℕ → Tx Db OrgError (Unit {0})
unfolding count_owners
guard_last_owner env org_id = do
  n ← map_err call_err (count_owners env org_id)
  raise_if (leb n 1) last_owner

-- `GetOrg`
unfoldable pub get_org : Env → ℕ → String → Tx Db OrgError OrgView
unfolding membership to_org
get_org env user ref = do om ← membership env user ref; pure (to_org om.0 om.1.role)

abbrev false_when_missing : Result DbError (Membership × Db) → Db → Result OrgError (Bool × Db)
false_when_missing (ok r) db = ok (is_owner r.0.role, r.1)
false_when_missing (err not_found) db = ok (false, db)
false_when_missing (err e) db = err OrgError.internal

-- `IsOwner`
unfoldable pub is_owner_of : Env → ℕ → ℕ → Tx Db OrgError Bool
unfolding get_membership
is_owner_of env user org_id db = false_when_missing (get_membership env org_id user db) db

-- `IsMember`
unfoldable pub is_member : Env → ℕ → ℕ → Db → Bool
unfolding get_membership
is_member env user org_id db = elim (get_membership env org_id user db) [
  | ok r ↦ true
  | err e ↦ false
]

-- `CanManage`
unfoldable pub can_manage : Env → ℕ → ℕ → Db → Bool
unfolding get_membership level
can_manage env user org_id db = elim (get_membership env org_id user db) [
  | ok r ↦ leb (level admin) (level r.0.role)
  | err e ↦ false
]

-- `ResolveOrgID`
unfoldable pub resolve_org_id : Env → String → Tx Db OrgError ℕ
unfolding resolve_org
resolve_org_id env ref = do o ← resolve_org env ref; pure o.id

-- `OrgName`
unfoldable pub org_name : Env → ℕ → Tx Db DbError String
unfolding get_org_by_id
org_name env org_id = do o ← get_org_by_id env org_id; pure o.name

-- `UpdateMyPreferences`
unfoldable pub update_my_preferences : Env → ℕ → String → Bool → Tx Db OrgError (Unit {0})
unfolding membership set_notify_events
update_my_preferences env user ref notify = do
  om ← membership env user ref
  map_err call_err (set_notify_events env om.0.id user notify)

-- dto.MemberNotify
pub record MemberNotify : Type 0 where
  pub user_id : ℕ
  pub email : String
  pub name : String
