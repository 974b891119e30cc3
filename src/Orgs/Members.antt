-- ===== src/Orgs/Members.antt =====
-- internal/organization/service/member.go. The derived policies of internal/iam are written after
-- the commit, best effort, and are left out.
use rallya.Common.{
  ℕ, String, Bool, true, false, not, ◌&&◌, none, some, List, [], ◌∷◌, ltb, leb, ◌==◌, filter, Tx,
  Result, ok, err, ◌>>=◌, ◌>>◌, raise_if, or_raise, map_err, pure, gets, if◌then◌else◌, modify,
  length,
}
use rallya.Model.Organization.{
  Membership, MemberRole, MemberCustomRole, owner, admin, member, level, is_valid, is_owner,
}
use rallya.Store.{
  Db, DbError, Env, User, not_found, emit_tx, call, list_user_custom_roles, unassign_custom_role,
}
use rallya.Subscription.Entitlements.{entitlement}
use rallya.Orgs.Slugs.{normalize_email, display_name_of}
use rallya.Orgs.Types.{
  OrgError, MemberView, call_err, org_err, member_err, to_member, forbidden, upgrade_required,
  user_not_found, already_member, internal,
}
use rallya.Orgs.Rows.{
  get_membership, count_members, create_membership_row, update_member_role_row,
  delete_membership_row, list_memberships,
}
use rallya.Orgs.Access.{MemberNotify, membership, require_role, guard_last_owner}
use rallya.Orgs.Manage.{org_entry}

-- An unknown role is MEMBER.
abbrev pub or_member : MemberRole → MemberRole
or_member role = if is_valid role then role else member

-- The plan's limit on members.
abbrev pub check_headcount : Env → ℕ → Tx Db OrgError (Unit {0})
check_headcount env org_id = do
  n ← map_err call_err (count_members env org_id)
  ent ← gets (entitlement env org_id)
  raise_if (leb ent.limits.max_members n) upgrade_required

-- A membership must not be there.
abbrev pub refuse_member : Result DbError (Membership × Db) → Db → Result OrgError (Unit {0} × Db)
refuse_member (ok r) db = err already_member
refuse_member (err not_found) db = ok (tt, db)
refuse_member (err e) db = err internal

abbrev pub no_member : Env → ℕ → ℕ → Tx Db OrgError (Unit {0})
no_member env org_id user db = refuse_member (get_membership env org_id user db) db

abbrev pub new_member : Env → ℕ → ℕ → MemberRole → Membership
new_member env org_id user role = record {
  id = env.new_id;
  org_id = org_id;
  user_id = user;
  role = role;
  notify_events = true;
}

-- `AddMember`
unfoldable pub add_member : Env → ℕ → String → String → MemberRole → Tx Db OrgError MemberView
unfolding require_role count_members get_membership create_membership_row to_member level
    normalize_email
add_member env grantor ref email asked = do
  om ← require_role env grantor ref admin
  let role = or_member asked
  raise_if (ltb (level om.1.role) (level role)) forbidden
  check_headcount env om.0.id
  target ← or_raise (env.get_user_by_email (normalize_email env email)) user_not_found
  raise_if (not target.is_active) user_not_found
  no_member env om.0.id target.id
  map_err member_err (create_membership_row env (new_member env om.0.id target.id role))
  emit_tx env internal (org_entry om.0.id grantor "member.added" "member" target.id)
  pure (to_member target role)

-- An unknown user has no name and no address.
abbrev blank_user : ℕ → User
blank_user id = record {
  id = id;
  is_active = false;
  email_verified = false;
  email = "";
  first_name = none;
}

abbrev pub user_or_blank : Env → ℕ → User
user_or_blank env id = elim (env.get_user id) [ none ↦ blank_user id | some u ↦ u ]

-- The last owner is kept unless the row stays an owner's.
abbrev pub keep_owner : Env → ℕ → Bool → Tx Db OrgError (Unit {0})
keep_owner env org_id false = pure tt
keep_owner env org_id true = guard_last_owner env org_id

-- `UpdateMemberRole`
unfoldable pub update_member_role : Env → ℕ → String → ℕ → MemberRole → Tx Db OrgError MemberView
unfolding require_role get_membership guard_last_owner update_member_role_row to_member
update_member_role env grantor ref target role = do
  om ← require_role env grantor ref owner
  raise_if (not (is_valid role)) forbidden
  m ← map_err org_err (get_membership env om.0.id target)
  keep_owner env om.0.id (is_owner m.role && not (is_owner role))
  map_err call_err (update_member_role_row env om.0.id target role)
  emit_tx env internal (org_entry om.0.id grantor "member.role_changed" "member" target)
  pure (to_member (user_or_blank env target) role)

-- What the caller may not do to another member.
abbrev pub may_not_remove : Bool → MemberRole → MemberRole → Bool
may_not_remove true caller target = false
may_not_remove false caller target =
    if ltb (level caller) (level admin) then true else is_owner target && not (is_owner caller)

abbrev pub holds_any : ℕ → ℕ → MemberCustomRole → Bool
holds_any org_id user r = r.org_id == org_id && r.user_id == user

-- The custom roles of a member, read and revoked one by one.
unfoldable pub drop_custom_roles : Env → ℕ → ℕ → Tx Db DbError (Unit {0})
drop_custom_roles env org_id user = do
  call env list_user_custom_roles
  held ← gets (λ db. filter (holds_any org_id user) db.custom_roles)
  raise_if (ltb 0 (length held) && env.fault unassign_custom_role) DbError.failed
  modify (λ db. record db {
    custom_roles = filter (λ r. not (holds_any org_id user r)) db.custom_roles;
  })

-- `RemoveMember`
unfoldable pub remove_member : Env → ℕ → String → ℕ → Tx Db OrgError (Unit {0})
unfolding membership get_membership guard_last_owner delete_membership_row drop_custom_roles level
remove_member env grantor ref target = do
  om ← membership env grantor ref
  m ← map_err org_err (get_membership env om.0.id target)
  raise_if (may_not_remove (grantor == target) om.1.role m.role) forbidden
  keep_owner env om.0.id (is_owner m.role)
  map_err call_err (delete_membership_row env om.0.id target)
  map_err call_err (drop_custom_roles env om.0.id target)
  emit_tx env internal (org_entry om.0.id grantor "member.removed" "member" target)

-- The members whose account is known.
abbrev pub member_views : Env → List Membership → List MemberView
unfolding to_member
member_views env [] = []
member_views env (m ∷ ms) =
    let rest = member_views env ms in
    elim (env.get_user m.user_id) [ none ↦ rest | some u ↦ to_member u m.role ∷ rest ]

-- `ListMembers`, from the first row, with the total.
unfoldable pub list_members : Env → ℕ → String → ℕ → Tx Db OrgError (List MemberView × ℕ)
unfolding require_role list_memberships
list_members env user ref limit = do
  om ← require_role env user ref member
  rows ← map_err call_err (list_memberships env om.0.id limit)
  pure (member_views env rows.0, rows.1)

abbrev pub notify_views : Env → List Membership → List MemberNotify
notify_views env [] = []
notify_views env (m ∷ ms) =
    let rest = notify_views env ms in
    elim (if m.notify_events then env.get_user m.user_id else none) [
      | none ↦ rest
      | some u ↦ record { user_id = u.id; email = u.email; name = display_name_of (some u) } ∷ rest
    ]

-- `NotifyTargets`
unfoldable pub notify_targets : Env → ℕ → Tx Db OrgError (List MemberNotify)
unfolding list_memberships display_name_of
notify_targets env org_id = do
  rows ← map_err call_err (list_memberships env org_id 100000)
  pure (notify_views env rows.0)
