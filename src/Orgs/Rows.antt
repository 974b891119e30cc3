-- ===== src/Orgs/Rows.antt =====
-- internal/organization/repository/org_repository.go: organizations, memberships and invites, with
-- the indexes and checks of migrations/000003_organization.up.sql.
use rallya.Common.{
  ℕ, String, str_eq, Bytes, bytes_eq, Bool, true, not, ◌&&◌, ◌||◌, some, List, [], ◌∷◌, ◌++◌, leb,
  ◌==◌, find, filter, count, length, take, reverse, update_first, codes, Tx, ◌>>=◌, ◌>>◌, raise_if,
  gets, modify, is_some, if◌then◌else◌,
}
use rallya.Model.Organization.{Organization, Membership, Invite, MemberRole, is_owner, is_valid}
use rallya.Orgs.Slugs.{is_slug}
use rallya.Store.{
  Db, DbError, Env, unique_violation, failed, first, call, create_org as call_create_org,
  get_org as call_get_org, get_org_by_slug as call_get_org_by_slug, update_org as call_update_org,
  delete_org as call_delete_org, create_membership as call_create_membership,
  get_membership as call_get_membership, count_members as call_count_members,
  list_memberships as call_list_memberships, update_member_role as call_update_member_role,
  set_notify_events as call_set_notify_events, delete_membership as call_delete_membership,
  count_owners as call_count_owners, create_invite as call_create_invite,
  get_invite as call_get_invite, get_invite_by_hash as call_get_invite_by_hash,
  pending_invite as call_pending_invite, list_invites as call_list_invites,
  consume_invite as call_consume_invite,
}

abbrev pub has_org : ℕ → Organization → Bool
has_org id o = o.id == id && not o.deleted

abbrev pub has_slug : Bytes → Organization → Bool
has_slug slug o = bytes_eq o.slug slug && not o.deleted

-- The columns of `organizations` and the check on its slug.
abbrev pub org_fits : Organization → Bool
org_fits o = is_slug o.slug && (leb (length o.slug) 100 && leb (length (codes o.name)) 255)

-- The primary key and the unique slug are of all rows, deleted ones too.
abbrev pub org_clash : Organization → Organization → Bool
org_clash o p = p.id == o.id || bytes_eq p.slug o.slug

-- `CreateOrg`
unfoldable pub create_org_row : Env → Organization → Tx Db DbError (Unit {0})
create_org_row env o = do
  call env call_create_org
  raise_if (not (org_fits o)) failed
  clash ← gets (λ db. find (org_clash o) db.orgs)
  raise_if (is_some clash) unique_violation
  modify (λ db. record db { orgs = db.orgs ++ o ∷ [] })

-- `GetOrgByID`
unfoldable pub get_org_by_id : Env → ℕ → Tx Db DbError Organization
get_org_by_id env id = first env call_get_org (has_org id) (λ db. db.orgs)

-- `GetOrgBySlug`
unfoldable pub get_org_by_slug : Env → Bytes → Tx Db DbError Organization
get_org_by_slug env slug = first env call_get_org_by_slug (has_slug slug) (λ db. db.orgs)

abbrev pub other_with_slug : Organization → Organization → Bool
other_with_slug o p = not (p.id == o.id) && bytes_eq p.slug o.slug

-- `UpdateOrg`
unfoldable pub update_org_row : Env → Organization → Tx Db DbError (Unit {0})
update_org_row env o = do
  call env call_update_org
  raise_if (not (org_fits o)) failed
  clash ← gets (λ db. find (other_with_slug o) db.orgs)
  raise_if (is_some clash) unique_violation
  modify (λ db. record db { orgs = update_first (has_org o.id) (λ _. o) db.orgs })

-- `DeleteOrg` sets deleted_at: no row of another table goes with it.
unfoldable pub delete_org_row : Env → ℕ → Tx Db DbError (Unit {0})
delete_org_row env id = do
  call env call_delete_org
  modify (λ db. record db {
    orgs = update_first (has_org id) (λ o. record o { deleted = true }) db.orgs;
  })

abbrev pub is_of : ℕ → ℕ → Membership → Bool
is_of org_id user_id m = m.org_id == org_id && m.user_id == user_id

-- `CreateMembership`; the column's default is to notify.
unfoldable pub create_membership_row : Env → Membership → Tx Db DbError (Unit {0})
create_membership_row env m = do
  call env call_create_membership
  raise_if (not (is_valid m.role)) failed
  clash ← gets (λ db. find (λ n. n.id == m.id || is_of m.org_id m.user_id n) db.memberships)
  raise_if (is_some clash) unique_violation
  modify (λ db. record db { memberships = db.memberships ++ m ∷ [] })

-- `GetMembership`
unfoldable pub get_membership : Env → ℕ → ℕ → Tx Db DbError Membership
get_membership env org_id user_id =
    first env call_get_membership (is_of org_id user_id) (λ db. db.memberships)

-- `CountMembers`
unfoldable pub count_members : Env → ℕ → Tx Db DbError ℕ
count_members env org_id = do
  call env call_count_members
  gets (λ db. count (λ m. m.org_id == org_id) db.memberships)

-- `ListMemberships`, oldest first, without an offset, with the total.
unfoldable pub list_memberships : Env → ℕ → ℕ → Tx Db DbError (List Membership × ℕ)
list_memberships env org_id limit = do
  call env call_list_memberships
  gets (λ db.
      let rows = filter (λ m. m.org_id == org_id) db.memberships in (take limit rows, length rows))

-- `ListUserMemberships`
unfoldable pub list_user_memberships : Env → ℕ → Tx Db DbError (List Membership)
list_user_memberships env user_id = do
  call env call_list_memberships
  gets (λ db. filter (λ m. m.user_id == user_id) db.memberships)

abbrev pub set_role : MemberRole → Membership → Membership
set_role role m = record m { role = role }

-- `UpdateMemberRole`
unfoldable pub update_member_role_row : Env → ℕ → ℕ → MemberRole → Tx Db DbError (Unit {0})
update_member_role_row env org_id user_id role = do
  call env call_update_member_role
  raise_if (not (is_valid role)) failed
  modify (λ db. record db {
    memberships = update_first (is_of org_id user_id) (set_role role) db.memberships;
  })

-- `SetNotifyEvents`
unfoldable pub set_notify_events : Env → ℕ → ℕ → Bool → Tx Db DbError (Unit {0})
set_notify_events env org_id user_id notify = do
  call env call_set_notify_events
  modify (λ db. record db {
    memberships =
        update_first (is_of org_id user_id) (λ m. record m { notify_events = notify })
          db.memberships;
  })

-- `DeleteMembership`
unfoldable pub delete_membership_row : Env → ℕ → ℕ → Tx Db DbError (Unit {0})
delete_membership_row env org_id user_id = do
  call env call_delete_membership
  modify
      (λ db. record db { memberships = filter (λ m. not (is_of org_id user_id m)) db.memberships })

abbrev pub owns : ℕ → Membership → Bool
owns org_id m = m.org_id == org_id && is_owner m.role

-- `CountOwners`
unfoldable pub count_owners : Env → ℕ → Tx Db DbError ℕ
count_owners env org_id = do
  call env call_count_owners
  gets (λ db. count (owns org_id) db.memberships)

abbrev pub is_invite : ℕ → Invite → Bool
is_invite id inv = inv.id == id

-- `CreateInvite`
unfoldable pub create_invite_row : Env → Invite → Tx Db DbError (Unit {0})
create_invite_row env inv = do
  call env call_create_invite
  raise_if (not (is_valid inv.role)) failed
  clash ← gets (λ db. find (is_invite inv.id) db.invites)
  raise_if (is_some clash) unique_violation
  modify (λ db. record db { invites = db.invites ++ inv ∷ [] })

-- `GetInviteByID`
unfoldable pub get_invite_by_id : Env → ℕ → Tx Db DbError Invite
get_invite_by_id env id = first env call_get_invite (is_invite id) (λ db. db.invites)

-- `GetInviteByHash`
unfoldable pub get_invite_by_hash : Env → Bytes → Tx Db DbError Invite
get_invite_by_hash env hash =
    first env call_get_invite_by_hash (λ inv. bytes_eq inv.token_hash hash) (λ db. db.invites)

abbrev pub is_open : Invite → Bool
is_open inv = not (is_some inv.accepted_at) && not (is_some inv.declined_at)

abbrev pub is_open_for : ℕ → String → Invite → Bool
is_open_for org_id email inv = inv.org_id == org_id && (str_eq inv.email email && is_open inv)

-- `PendingInvite`, the newest
unfoldable pub pending_invite : Env → ℕ → String → Tx Db DbError Invite
pending_invite env org_id email =
    first env call_pending_invite (is_open_for org_id email) (λ db. reverse db.invites)

-- `ListInvites`, newest first, without an offset, with the total.
unfoldable pub list_invites : Env → ℕ → ℕ → Tx Db DbError (List Invite × ℕ)
list_invites env org_id limit = do
  call env call_list_invites
  gets (λ db.
      let rows = filter (λ inv. inv.org_id == org_id && is_open inv) db.invites in
      (take limit (reverse rows), length rows))

abbrev pub stamp : Bool → ℕ → Invite → Invite
stamp accepted at_time inv =
    if accepted
    then record inv { accepted_at = some at_time }
    else record inv { declined_at = some at_time }

-- `ConsumeInvite`
unfoldable pub consume_invite : Env → ℕ → Bool → ℕ → Tx Db DbError (Unit {0})
consume_invite env id accepted at_time = do
  call env call_consume_invite
  modify (λ db. record db {
    invites = update_first (is_invite id) (stamp accepted at_time) db.invites;
  })
