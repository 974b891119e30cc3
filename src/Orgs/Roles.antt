-- ===== src/Orgs/Roles.antt =====
-- internal/organization/service/roles.go. The derived policies of internal/iam are written after
-- the commit, best effort, and are left out.
use rallya.Common.{
  ℕ, String, str_eq, Bytes, bytes_eq, codes, is_nil, trim_space, Bool, true, false, not, ◌&&◌, ◌||◌,
  Option, none, some, List, [], ◌∷◌, ltb, leb, map, find, is_some, Tx, Result, ok, err, ◌>>=◌, ◌>>◌,
  raise_if, or_raise, map_err, pure, gets, if◌then◌else◌,
}
use rallya.Model.Organization.{RoleDefinition, RolePermission, owner, admin}
use rallya.Model.Subscription.{custom_roles as custom_roles_feature}
use rallya.Store.{Db, DbError, Env, not_found, unique_violation, emit_tx}
use rallya.Subscription.Entitlements.{entitlement}
use rallya.Orgs.Slugs.{is_slug}
use rallya.Orgs.Types.{
  OrgError, RoleView, call_err, org_err, role_err, role_exists_err, to_custom_role,
  invalid_role_name, role_reserved, role_exists, role_cap_reached, role_assigned,
  invalid_role_permissions, upgrade_required, internal,
}
use rallya.Orgs.Rows.{get_membership}
use rallya.Orgs.RoleRows.{
  create_role_def_row, get_role_def, list_role_defs, update_role_def_row, delete_role_def_row,
  count_role_defs, assign_custom_role, unassign_custom_role, count_role_assignments,
  count_role_assignees, list_user_custom_roles,
}
use rallya.Orgs.Access.{require_role}
use rallya.Orgs.Manage.{org_entry}

-- `MaxCustomRoles`
abbrev pub max_custom_roles : ℕ
max_custom_roles = 20

abbrev any_of : List String → String → Bool
any_of names s = is_some (find (λ n. str_eq n s) names)

-- The actions of an object in `roleRegistry`.
abbrev registry : List (String × List String)
registry =
    ("org", "read" ∷ "update" ∷ [])
    ∷ ("member", "read" ∷ "create" ∷ "delete" ∷ [])
    ∷ ("invite", "read" ∷ "create" ∷ "delete" ∷ [])
    ∷ ("event", "read" ∷ "create" ∷ "update" ∷ "delete" ∷ "publish" ∷ [])
    ∷ ("ticket", "read" ∷ "create" ∷ "update" ∷ "delete" ∷ [])
    ∷ ("attendee", "read" ∷ "create" ∷ "update" ∷ [])
    ∷ ("checkin", "read" ∷ "create" ∷ "update" ∷ [])
    ∷ ("kit", "read" ∷ "create" ∷ "update" ∷ "delete" ∷ [])
    ∷ ("audit", "read" ∷ [])
    ∷ ("role", "read" ∷ "create" ∷ "update" ∷ "delete" ∷ [])
    ∷ ("apikey", "read" ∷ "create" ∷ "delete" ∷ [])
    ∷ []

-- `roleRegistry`
unfoldable pub grantable : RolePermission → Bool
grantable p = elim (find (λ r. str_eq r.0 p.object) registry) [
  | none ↦ false
  | some r ↦ any_of r.1 p.action
]

-- `reservedRoleNames`
unfoldable pub is_reserved : Bytes → Bool
is_reserved name =
    bytes_eq name (codes "owner")
    || (bytes_eq name (codes "admin")
        || (bytes_eq name (codes "member") || bytes_eq name (codes "superadmin")))

-- `normalizeRoleName`
unfoldable pub normalize_role_name : Env → String → Tx Db OrgError Bytes
unfolding is_reserved
normalize_role_name env raw = do
  let name = codes (env.to_lower (trim_space raw))
  raise_if (is_nil name || not (is_slug name)) invalid_role_name
  raise_if (is_reserved name) role_reserved
  pure name

abbrev pub same_permission : RolePermission → RolePermission → Bool
same_permission p q = str_eq p.object q.object && str_eq p.action q.action

abbrev pub lowered_permission : Env → RolePermission → RolePermission
lowered_permission env p = record {
  object = env.to_lower (trim_space p.object);
  action = env.to_lower (trim_space p.action);
}

-- The loop of `normalizeRolePermissions`, over what was seen so far.
abbrev pub collect_permissions :
    Env → List RolePermission → List RolePermission → Option (List RolePermission)
unfolding grantable
collect_permissions env seen [] = some []
collect_permissions env seen (raw ∷ perms) =
    let p = lowered_permission env raw in
    let known = is_some (find (same_permission p) seen) in
    let rest = collect_permissions env (if known then seen else p ∷ seen) perms in
    elim (grantable p) [
      | false ↦ none
      | true ↦ elim rest [ none ↦ none | some out ↦ some (if known then out else p ∷ out) ]
    ]

abbrev is_empty_list : List RolePermission → Bool
is_empty_list [] = true
is_empty_list (p ∷ ps) = false

-- `normalizeRolePermissions`
unfoldable pub normalize_role_permissions :
    Env → List RolePermission → Tx Db OrgError (List RolePermission)
normalize_role_permissions env perms = do
  raise_if (is_empty_list perms) invalid_role_permissions
  or_raise (collect_permissions env [] perms) invalid_role_permissions

-- A definition must not be there.
abbrev pub refuse_role : Result DbError (RoleDefinition × Db) → Db → Result OrgError (Unit {0} × Db)
refuse_role (ok r) db = err role_exists
refuse_role (err not_found) db = ok (tt, db)
refuse_role (err e) db = err internal

abbrev pub no_role : Env → ℕ → Bytes → Tx Db OrgError (Unit {0})
unfolding get_role_def
no_role env org_id role db = refuse_role (get_role_def env org_id role db) db

abbrev pub new_role : Env → ℕ → Bytes → List RolePermission → RoleDefinition
new_role env org_id name perms = record {
  id = env.new_id;
  org_id = org_id;
  name = name;
  permissions = perms;
}

-- `DefineRole`
unfoldable pub define_role :
    Env → ℕ → String → String → List RolePermission → Tx Db OrgError RoleView
unfolding require_role normalize_role_name normalize_role_permissions get_role_def count_role_defs
    create_role_def_row to_custom_role
define_role env grantor ref name perms = do
  om ← require_role env grantor ref owner
  ent ← gets (entitlement env om.0.id)
  raise_if (not (ent.features custom_roles_feature)) upgrade_required
  role ← normalize_role_name env name
  norm ← normalize_role_permissions env perms
  no_role env om.0.id role
  n ← map_err call_err (count_role_defs env om.0.id)
  raise_if (leb max_custom_roles n) role_cap_reached
  let d = new_role env om.0.id role norm
  map_err role_exists_err (create_role_def_row env d)
  emit_tx env internal (org_entry om.0.id grantor "role.created" "role" d.id)
  pure (to_custom_role d norm 0)

abbrev pub or_zero : Result DbError (ℕ × Db) → ℕ
or_zero (ok r) = r.0
or_zero (err e) = 0

-- `UpdateRole`; the count of holders falls back to 0.
unfoldable pub update_role :
    Env → ℕ → String → String → List RolePermission → Tx Db OrgError RoleView
unfolding require_role normalize_role_name normalize_role_permissions get_role_def
    update_role_def_row count_role_assignments to_custom_role
update_role env grantor ref name perms = do
  om ← require_role env grantor ref owner
  role ← normalize_role_name env name
  norm ← normalize_role_permissions env perms
  d ← map_err role_err (get_role_def env om.0.id role)
  let u = record d { permissions = norm }
  map_err call_err (update_role_def_row env u)
  emit_tx env internal (org_entry om.0.id grantor "role.updated" "role" d.id)
  holders ← gets (λ db. or_zero (count_role_assignments env om.0.id role db))
  pure (to_custom_role u norm holders)

-- `DeleteRole`
unfoldable pub delete_role : Env → ℕ → String → String → Tx Db OrgError (Unit {0})
unfolding require_role normalize_role_name get_role_def count_role_assignments delete_role_def_row
delete_role env grantor ref name = do
  om ← require_role env grantor ref owner
  role ← normalize_role_name env name
  d ← map_err role_err (get_role_def env om.0.id role)
  n ← map_err call_err (count_role_assignments env om.0.id role)
  raise_if (ltb 0 n) role_assigned
  map_err call_err (delete_role_def_row env om.0.id role)
  emit_tx env internal (org_entry om.0.id grantor "role.deleted" "role" d.id)

-- `ListRoles`
unfoldable pub list_roles : Env → ℕ → String → Tx Db OrgError (List RoleView)
unfolding require_role list_role_defs count_role_assignees to_custom_role
list_roles env user ref = do
  om ← require_role env user ref admin
  defs ← map_err call_err (list_role_defs env om.0.id)
  counts ← map_err call_err (count_role_assignees env om.0.id)
  pure (map (λ d. to_custom_role d d.permissions (counts d.name)) defs)

-- A unique violation means that the role is held already.
abbrev pub unless_held :
    Result DbError (Unit {0} × Db)
    → Tx Db OrgError (Unit {0})
    → Db
    → Result OrgError (Unit {0} × Db)
unless_held (ok r) next db = next r.1
unless_held (err unique_violation) next db = ok (tt, db)
unless_held (err e) next db = err internal

-- `AssignRole`; a grant that is held already is no error.
unfoldable pub assign_role : Env → ℕ → String → ℕ → String → Tx Db OrgError (Unit {0})
unfolding require_role normalize_role_name get_role_def get_membership assign_custom_role
assign_role env grantor ref target name = do
  om ← require_role env grantor ref owner
  role ← normalize_role_name env name
  d ← map_err role_err (get_role_def env om.0.id role)
  m ← map_err org_err (get_membership env om.0.id target)
  λ db.
      unless_held (assign_custom_role env om.0.id target role db)
        (emit_tx env internal (org_entry om.0.id grantor "role.assigned" "role" d.id)) db

-- `UnassignRole`
unfoldable pub unassign_role : Env → ℕ → String → ℕ → String → Tx Db OrgError (Unit {0})
unfolding require_role normalize_role_name get_role_def unassign_custom_role
unassign_role env grantor ref target name = do
  om ← require_role env grantor ref owner
  role ← normalize_role_name env name
  d ← map_err role_err (get_role_def env om.0.id role)
  map_err call_err (unassign_custom_role env om.0.id target role)
  emit_tx env internal (org_entry om.0.id grantor "role.unassigned" "role" d.id)

-- `ListMemberCustomRoles`
unfoldable pub list_member_custom_roles : Env → ℕ → ℕ → Tx Db DbError (List Bytes)
unfolding list_user_custom_roles
list_member_custom_roles env org_id user_id = list_user_custom_roles env org_id user_id
