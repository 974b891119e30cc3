-- ===== src/Orgs/Types.antt =====
-- internal/organization/service/errors.go, and the views of dto/org.go that the services fill.
use rallya.Common.{ℕ, String, Bytes, Bool, Option, List}
use rallya.Model.Organization.{Organization, MemberRole, RoleDefinition, RolePermission}
use rallya.Store.{DbError, User, not_found, unique_violation}
use rallya.Orgs.Slugs.{display_name_of}

-- errors.go, less the sentinels of API keys, with `ErrUpgradeRequired` of the subscription domain;
-- `internal` is a database failure that is passed on.
pub data OrgError : Type 0 where
  org_not_found forbidden slug_taken invalid_slug invalid_name already_member : OrgError
  user_not_found last_owner invalid_invite invite_consumed invite_email_mismatch : OrgError
  invalid_role_name role_reserved role_exists role_not_found role_cap_reached : OrgError
  role_assigned invalid_role_permissions upgrade_required internal : OrgError

abbrev pub call_err : DbError → OrgError
call_err e = internal

-- `errors.Is(err, gorm.ErrRecordNotFound)` at the lookups.
abbrev pub org_err : DbError → OrgError
org_err not_found = org_not_found
org_err _ = internal

abbrev pub invite_err : DbError → OrgError
invite_err not_found = invalid_invite
invite_err _ = internal

abbrev pub role_err : DbError → OrgError
role_err not_found = role_not_found
role_err _ = internal

-- `IsUniqueViolation` at the inserts.
abbrev pub slug_err : DbError → OrgError
slug_err unique_violation = slug_taken
slug_err _ = internal

abbrev pub member_err : DbError → OrgError
member_err unique_violation = already_member
member_err _ = internal

abbrev pub role_exists_err : DbError → OrgError
role_exists_err unique_violation = role_exists
role_exists_err _ = internal

-- dto.Org, less its time.
pub record OrgView : Type 0 where
  pub id : ℕ
  pub name : String
  pub slug : Bytes
  pub logo_url : Option String
  pub role : MemberRole

-- `toOrg`
unfoldable pub to_org : Organization → MemberRole → OrgView
to_org o role = record {
  id = o.id;
  name = o.name;
  slug = o.slug;
  logo_url = o.logo_url;
  role = role;
}

-- dto.Member, less its time.
pub record MemberView : Type 0 where
  pub user_id : ℕ
  pub email : String
  pub name : String
  pub email_verified : Bool
  pub role : MemberRole

-- `toMember`
unfoldable pub to_member : User → MemberRole → MemberView
unfolding display_name_of
to_member u role = record {
  user_id = u.id;
  email = u.email;
  name = display_name_of (Option.some u);
  email_verified = u.email_verified;
  role = role;
}

-- dto.CustomRole, less its time.
pub record RoleView : Type 0 where
  pub id : ℕ
  pub name : Bytes
  pub permissions : List RolePermission
  pub holders : ℕ

-- `toCustomRole`
unfoldable pub to_custom_role : RoleDefinition → List RolePermission → ℕ → RoleView
to_custom_role d perms holders = record {
  id = d.id;
  name = d.name;
  permissions = perms;
  holders = holders;
}
