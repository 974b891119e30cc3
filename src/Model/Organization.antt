-- ===== src/Model/Organization.antt =====
-- internal/organization/model: organizations, memberships, invites and custom roles. Slugs and role
-- names are the bytes of their text.
use rallya.Common.{ℕ, String, Bytes, Bool, true, false, Option, is_some, ltb, ◌&&◌, not, List}

-- `MemberRole`; `other` is any other text.
pub data MemberRole : Type 0 where
  owner admin member other : MemberRole

-- `Level`
unfoldable pub level : MemberRole → ℕ
level owner = 3
level admin = 2
level member = 1
level other = 1

-- `Valid`
abbrev pub is_valid : MemberRole → Bool
is_valid other = false
is_valid _ = true

abbrev pub is_owner : MemberRole → Bool
is_owner owner = true
is_owner _ = false

-- `Organization`; a deleted row is kept with deleted_at set.
pub record Organization : Type 0 where
  pub id : ℕ
  pub name : String
  pub slug : Bytes
  pub logo_url : Option String
  pub created_by : Option ℕ
  pub deleted : Bool

pub record Membership : Type 0 where
  pub id : ℕ
  pub org_id : ℕ
  pub user_id : ℕ
  pub role : MemberRole
  pub notify_events : Bool

pub record Invite : Type 0 where
  pub id : ℕ
  pub org_id : ℕ
  pub email : String
  pub role : MemberRole
  pub token_hash : Bytes
  pub expires_at : ℕ
  pub accepted_at : Option ℕ
  pub declined_at : Option ℕ
  pub invited_by : Option ℕ

-- `Pending`
unfoldable pub is_pending : Invite → ℕ → Bool
is_pending inv now =
    not (is_some inv.accepted_at) && (not (is_some inv.declined_at) && ltb now inv.expires_at)

-- `RolePermission` of internal/organization/service/roles.go
pub record RolePermission : Type 0 where
  pub object : String
  pub action : String

-- `RoleDefinition`; the permissions are the list that the column encodes.
pub record RoleDefinition : Type 0 where
  pub id : ℕ
  pub org_id : ℕ
  pub name : Bytes
  pub permissions : List RolePermission

pub record MemberCustomRole : Type 0 where
  pub org_id : ℕ
  pub user_id : ℕ
  pub role_name : Bytes
