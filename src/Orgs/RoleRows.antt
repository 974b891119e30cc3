-- ===== src/Orgs/RoleRows.antt =====
-- internal/organization/repository/org_repository.go: custom roles and who holds them.
use rallya.Common.{
  ℕ, Bytes, bytes_eq, Bool, not, ◌&&◌, ◌||◌, List, [], ◌∷◌, ◌++◌, ◌==◌, find, filter, count,
  update_first, map, Tx, ◌>>=◌, ◌>>◌, raise_if, gets, modify, is_some,
}
use rallya.Model.Organization.{RoleDefinition, MemberCustomRole}
use rallya.Store.{
  Db, DbError, Env, unique_violation, first, call, create_role_def as call_create_role_def,
  get_role_def as call_get_role_def, list_role_defs as call_list_role_defs,
  update_role_def as call_update_role_def, delete_role_def as call_delete_role_def,
  count_role_defs as call_count_role_defs, assign_custom_role as call_assign_custom_role,
  unassign_custom_role as call_unassign_custom_role,
  list_user_custom_roles as call_list_user_custom_roles,
  count_role_assignments as call_count_role_assignments,
  count_role_assignees as call_count_role_assignees,
}

abbrev pub is_named : ℕ → Bytes → RoleDefinition → Bool
is_named org_id name d = d.org_id == org_id && bytes_eq d.name name

-- `CreateRoleDef`
unfoldable pub create_role_def_row : Env → RoleDefinition → Tx Db DbError (Unit {0})
create_role_def_row env d = do
  call env call_create_role_def
  clash ← gets (λ db. find (λ e. e.id == d.id || is_named d.org_id d.name e) db.role_defs)
  raise_if (is_some clash) unique_violation
  modify (λ db. record db { role_defs = db.role_defs ++ d ∷ [] })

-- `GetRoleDef`
unfoldable pub get_role_def : Env → ℕ → Bytes → Tx Db DbError RoleDefinition
get_role_def env org_id name =
    first env call_get_role_def (is_named org_id name) (λ db. db.role_defs)

-- `ListRoleDefs`, oldest first.
unfoldable pub list_role_defs : Env → ℕ → Tx Db DbError (List RoleDefinition)
list_role_defs env org_id = do
  call env call_list_role_defs
  gets (λ db. filter (λ d. d.org_id == org_id) db.role_defs)

-- `UpdateRoleDef`
unfoldable pub update_role_def_row : Env → RoleDefinition → Tx Db DbError (Unit {0})
update_role_def_row env d = do
  call env call_update_role_def
  modify (λ db. record db { role_defs = update_first (λ e. e.id == d.id) (λ _. d) db.role_defs })

-- `DeleteRoleDef`
unfoldable pub delete_role_def_row : Env → ℕ → Bytes → Tx Db DbError (Unit {0})
delete_role_def_row env org_id name = do
  call env call_delete_role_def
  modify (λ db. record db { role_defs = filter (λ d. not (is_named org_id name d)) db.role_defs })

-- `CountRoleDefs`
unfoldable pub count_role_defs : Env → ℕ → Tx Db DbError ℕ
count_role_defs env org_id = do
  call env call_count_role_defs
  gets (λ db. count (λ d. d.org_id == org_id) db.role_defs)

abbrev pub is_grant : ℕ → ℕ → Bytes → MemberCustomRole → Bool
is_grant org_id user_id name r =
    r.org_id == org_id && (r.user_id == user_id && bytes_eq r.role_name name)

-- `AssignCustomRole`
unfoldable pub assign_custom_role : Env → ℕ → ℕ → Bytes → Tx Db DbError (Unit {0})
assign_custom_role env org_id user_id name = do
  call env call_assign_custom_role
  clash ← gets (λ db. find (is_grant org_id user_id name) db.custom_roles)
  raise_if (is_some clash) unique_violation
  modify (λ db. record db {
    custom_roles =
        db.custom_roles ++ record { org_id = org_id; user_id = user_id; role_name = name } ∷ [];
  })

-- `UnassignCustomRole`
unfoldable pub unassign_custom_role : Env → ℕ → ℕ → Bytes → Tx Db DbError (Unit {0})
unassign_custom_role env org_id user_id name = do
  call env call_unassign_custom_role
  modify (λ db. record db {
    custom_roles = filter (λ r. not (is_grant org_id user_id name r)) db.custom_roles;
  })

-- `ListUserCustomRoles`
unfoldable pub list_user_custom_roles : Env → ℕ → ℕ → Tx Db DbError (List Bytes)
list_user_custom_roles env org_id user_id = do
  call env call_list_user_custom_roles
  gets (λ db.
      map (λ r. r.role_name)
        (filter (λ r. r.org_id == org_id && r.user_id == user_id) db.custom_roles))

abbrev pub is_held : ℕ → Bytes → MemberCustomRole → Bool
is_held org_id name r = r.org_id == org_id && bytes_eq r.role_name name

-- `CountRoleAssignments`
unfoldable pub count_role_assignments : Env → ℕ → Bytes → Tx Db DbError ℕ
count_role_assignments env org_id name = do
  call env call_count_role_assignments
  gets (λ db. count (is_held org_id name) db.custom_roles)

-- `CountRoleAssignees`; the map gives 0 for a role that nobody holds.
unfoldable pub count_role_assignees : Env → ℕ → Tx Db DbError (Bytes → ℕ)
count_role_assignees env org_id = do
  call env call_count_role_assignees
  gets (λ db name. count (is_held org_id name) db.custom_roles)
