-- ===== src/Tests/OrgRuns.antt =====
-- Runs of the organization domain: two organizations, one of them deleted, with two owners.
use rallya.Common.{
  ℕ, ◌≤◌, ◌<◌, ◌≡◌, ◌⊎◌, refl, Bytes, codes, trim_space, true, false, not, none, some, [], ◌∷◌,
  ◌++◌, ok, err, Result, arith, All, find, filter, count, ◌==◌,
}
use rallya.Model.Organization.{
  Organization, Membership, Invite, MemberRole, owner, admin, member, level, is_owner,
}
use rallya.Store.{Db, User}
use rallya.Subscription.Entitlements.{entitlement, entitlement_for, get_by_org}
use rallya.Model.Subscription.{entitlement_for_plan, tier_limits, tier_features}
use rallya.Orgs.Slugs.{is_slug, slugify, normalize_email, display_name}
use rallya.Orgs.Types.{OrgView, OrgError, MemberView, slug_taken, to_org, to_member}
use rallya.Orgs.Rows.{
  is_of, owns, create_membership_row, get_org_by_slug, get_org_by_id, get_membership, count_owners,
  count_members, delete_membership_row, consume_invite,
}
use rallya.Orgs.Access.{require_role, membership, resolve_org, guard_last_owner}
use rallya.Orgs.Manage.{create_org, unique_slug, base_slug, numbered}
use rallya.Orgs.Members.{
  remove_member, add_member, drop_custom_roles, holds_any, or_member, new_member,
}
use rallya.Orgs.Invites.{accept_invite, join_org}
use rallya.Orgs.Owners.{Owned}
use rallya.Orgs.Removal.{remove_member-eq-ok}
use rallya.Orgs.Founding.{base_slug-slug}
use rallya.Orgs.Deleted.{unique_slug-total, create_org-taken, IsFresh}
use rallya.Orgs.Joining.{add_member-eq-ok}
use rallya.Orgs.Rejoining.{accept_invite_again}
use rallya.Orgs.History.{stay, go, remove, org_history-Owned}
use rallya.Tests.World.{world, shop, account}

abbrev guild : Organization
guild = record {
  id = 9;
  name = "Guild";
  slug = codes "guild";
  logo_url = none;
  created_by = some 5;
  deleted = false;
}

abbrev acme : Organization
acme = record guild { id = 2; name = "Acme"; slug = codes "acme"; deleted = true }

abbrev seat_of : ℕ → ℕ → ℕ → MemberRole → Membership
seat_of id org user role = record {
  id = id;
  org_id = org;
  user_id = user;
  role = role;
  notify_events = true;
}

abbrev invite : Invite
invite = record {
  id = 3;
  org_id = 9;
  email = "ann@example.org";
  role = member;
  token_hash = 35 ∷ 84 ∷ [];
  expires_at = 5000;
  accepted_at = none;
  declined_at = none;
  invited_by = some 5;
}

abbrev org_shop : Db
org_shop = record shop {
  orgs = guild ∷ acme ∷ [];
  memberships = seat_of 1 9 5 owner ∷ seat_of 2 9 6 owner ∷ seat_of 3 2 5 owner ∷ [];
  invites = invite ∷ [];
}

org_shop-Owned : Owned org_shop
org_shop-Owned = (((refl, (refl, tt)), ((refl, tt), (tt, tt))), (ground arith, (ground arith, tt)))

abbrev state : {E A : Type 0} → Result E (A × Db) → Db
state (ok r) = r.1
state (err e) = org_shop

-- Owner 5 removes owner 6.
abbrev smaller : Db
smaller = state (remove_member (world 1000 40) 5 "9" 6 org_shop)

smaller_ok : remove_member (world 1000 40) 5 "9" 6 org_shop ≡ ok (tt, smaller)
unfolding remove_member membership resolve_org get_org_by_id get_membership guard_last_owner
    count_owners delete_membership_row drop_custom_roles trim_space level
smaller_ok = refl

org_history-Owned_example : Owned smaller
org_history-Owned_example =
    org_history-Owned smaller org_shop
      (go org_shop smaller (remove (world 1000 40) 5 "9" 6 (tt, smaller) smaller_ok) stay)
      org_shop-Owned

remove_member-eq-ok_example :
    (om : Organization × Membership) × (m : Membership) × (find
        (is_of om.0.id 5)
        org_shop.memberships
      ≡ some om.1)
    × (find (is_of om.0.id 6) org_shop.memberships ≡ some m)
    × ((◌≡◌ {A = ℕ} 5 6)
        ⊎ ((level admin ≤ level om.1.role) × ((is_owner m.role ≡ false) ⊎ (om.1.role ≡ owner))))
    × ((is_owner m.role ≡ false) ⊎ (2 ≤ count (owns om.0.id) org_shop.memberships))
    × (smaller.memberships ≡ filter (λ n. not (is_of om.0.id 6 n)) org_shop.memberships)
    × (smaller.custom_roles ≡ filter (λ n. not (holds_any om.0.id 6 n)) org_shop.custom_roles)
    × (smaller.orgs ≡ org_shop.orgs)
remove_member-eq-ok_example =
    remove_member-eq-ok (world 1000 40) 5 "9" 6 org_shop {r = (tt, smaller)} smaller_ok

-- The last owner stays.
last_one_stays : remove_member (world 1000 40) 5 "9" 5 smaller ≡ err OrgError.last_owner
unfolding remove_member membership resolve_org get_org_by_id get_membership guard_last_owner
    count_owners delete_membership_row drop_custom_roles trim_space level
last_one_stays = refl

-- Ann takes up her invite at time 1000, and again at time 9000.
abbrev joined : OrgView × Db
joined = (
  record { id = 9; name = "Guild"; slug = codes "guild"; logo_url = none; role = member },
  state (join_org (world 1000 40) invite guild (account 8) org_shop),
)

joined_ok : join_org (world 1000 40) invite guild (account 8) org_shop ≡ ok joined
unfolding join_org count_members create_membership_row consume_invite to_org entitlement
    entitlement_for get_by_org entitlement_for_plan tier_limits tier_features
joined_ok = refl

accept_invite_again_example : accept_invite (world 9000 41) 8 (84 ∷ []) joined.1 ≡ ok joined
accept_invite_again_example =
    accept_invite_again (world 1000 40) (world 9000 41) 8 (84 ∷ []) invite (account 8) guild
      org_shop refl refl refl (tt, tt) refl refl refl refl joined_ok

-- A slug for a guild: the plain one is taken.
unique_slug-total_example :
    (slug : Bytes) × (unique_slug (world 1000 40) (codes "guild") org_shop ≡ ok slug)
    × IsFresh (codes "guild") (97 ∷ 49 ∷ 98 ∷ 50 ∷ 99 ∷ 51 ∷ []) slug org_shop
unique_slug-total_example =
    unique_slug-total (world 1000 40) (codes "guild") (97 ∷ 49 ∷ 98 ∷ 50 ∷ 99 ∷ 51 ∷ []) org_shop
      refl refl

guild_two : unique_slug (world 1000 40) (codes "guild") org_shop ≡ ok (codes "guild-2")
unfolding unique_slug get_org_by_slug
guild_two = refl

-- A new organization named like the deleted one.
create_org-taken_example : create_org (world 1000 40) 5 "acme" "" "" org_shop ≡ err slug_taken
unfolding slugify trim_space
create_org-taken_example =
    create_org-taken (world 1000 40) 5 "acme" "" "" acme org_shop refl refl refl refl refl refl refl

base_slug-slug_example :
    (is_slug (base_slug (world 1000 40) "my  shop-") ≡ true)
    × ((i : ℕ) → i < 100 → is_slug (numbered (base_slug (world 1000 40) "my  shop-") i) ≡ true)
base_slug-slug_example = base_slug-slug (world 1000 40) "my  shop-"

-- Owner 5 adds the account of an address.
abbrev added : MemberView × Db
added = (
  record {
    user_id = 8;
    email = "ann@example.org";
    name = "Ann";
    email_verified = true;
    role = member;
  },
  state (add_member (world 1000 40) 5 "9" "ann@example.org" member org_shop),
)

added_ok : add_member (world 1000 40) 5 "9" "ann@example.org" member org_shop ≡ ok added
unfolding add_member require_role membership resolve_org get_org_by_id get_membership count_members
    create_membership_row to_member normalize_email trim_space level entitlement entitlement_for
    get_by_org entitlement_for_plan tier_limits tier_features display_name
added_ok = refl

add_member-eq-ok_example :
    (om : Organization × Membership) × (u : User) × (find (is_of om.0.id 5) org_shop.memberships
      ≡ some om.1)
    × (level admin ≤ level om.1.role)
    × (level (or_member member) ≤ level om.1.role)
    × (added.1.memberships
        ≡ org_shop.memberships ++ new_member (world 1000 40) om.0.id u.id (or_member member) ∷ [])
    × (count (λ (m : Membership). m.org_id == om.0.id) added.1.memberships
        ≤ (entitlement (world 1000 40) om.0.id org_shop).limits.max_members)
    × All (λ n. is_of om.0.id u.id n ≡ false) org_shop.memberships
    × (added.1.orgs ≡ org_shop.orgs)
add_member-eq-ok_example =
    add_member-eq-ok (world 1000 40) 5 "9" "ann@example.org" member org_shop added_ok
