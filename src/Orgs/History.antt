-- ===== src/Orgs/History.antt =====
-- The life of organizations (internal/organization): creation, joining, promotion, removal and
-- deletion, in any order.
use rallya.Common.{
  ℕ, ◌≡◌, String, true, arith, [], ◌∷◌, ◌++◌, ok, All-map, All-update_first, count-append,
}
use rallya.Model.Organization.{Organization, Invite, MemberRole}
use rallya.Store.{Db, Env, User}
use rallya.Orgs.Types.{OrgView, MemberView}
use rallya.Orgs.Rows.{owns, has_org}
use rallya.Orgs.Manage.{create_org, delete_org}
use rallya.Orgs.Members.{add_member, update_member_role, remove_member}
use rallya.Orgs.Invites.{join_org, new_joiner}
use rallya.Orgs.Owners.{HasOwner, Owned, OneRow-append}
use rallya.Orgs.Roster.{update_member_role-Owned}
use rallya.Orgs.Removal.{remove_member-Owned}
use rallya.Orgs.Founding.{create_org-Owned}
use rallya.Orgs.Deleted.{delete_org-eq-ok}
use rallya.Orgs.Joining.{add_member-Owned, join_org-eq-ok}

join_org-Owned :
    (env : Env) (inv : Invite) (o : Organization) (u : User) (db : Db) {r : OrgView × Db}
    → join_org env inv o u db ≡ ok r
    → Owned db
    → Owned r.1
join_org-Owned env inv o u db h (one, owned) =
    let (room, apart, rows, invites, orgs, view) = join_org-eq-ok env inv o u db h in
    let m = new_joiner env inv o u in
    rw (orgs, rows)
      (
        OneRow-append m db.memberships apart one,
        All-map (HasOwner db.memberships) (HasOwner (db.memberships ++ m ∷ [])) db.orgs
            (λ p has. omega (arith, has, count-append (owns p.id) db.memberships (m ∷ []))) owned,
      )

delete_org-Owned :
    (env : Env) (user : ℕ) (ref : String) (db : Db) {r : Unit {0} × Db}
    → delete_org env user ref db ≡ ok r
    → Owned db
    → Owned r.1
delete_org-Owned env user ref db h (one, owned) =
    let (om, caller, as_owner, orgs, rows, invites) = delete_org-eq-ok env user ref db h in
    rw (orgs, rows)
      (
        one,
        All-update_first (HasOwner db.memberships) (has_org om.0.id)
            (λ o. record o { deleted = true }) db.orgs (λ o e has. has) owned,
      )

-- One successful operation. `join` is the membership that an invite gives.
pub data OrgStep (db : Db) : Db → Type 0 where
  found :
      (env : Env) (creator : ℕ) (name slug logo : String) (r : OrgView × Db)
      → create_org env creator name slug logo db ≡ ok r
      → OrgStep db r.1
  add :
      (env : Env) (grantor : ℕ) (ref address : String) (role : MemberRole) (r : MemberView × Db)
      → add_member env grantor ref address role db ≡ ok r
      → OrgStep db r.1
  join :
      (env : Env) (inv : Invite) (o : Organization) (u : User) (r : OrgView × Db)
      → join_org env inv o u db ≡ ok r
      → OrgStep db r.1
  promote :
      (env : Env) (grantor : ℕ) (ref : String) (target : ℕ) (role : MemberRole)
      (r : MemberView × Db)
      → update_member_role env grantor ref target role db ≡ ok r
      → OrgStep db r.1
  remove :
      (env : Env) (grantor : ℕ) (ref : String) (target : ℕ) (r : Unit {0} × Db)
      → remove_member env grantor ref target db ≡ ok r
      → OrgStep db r.1
  delete :
      (env : Env) (user : ℕ) (ref : String) (r : Unit {0} × Db)
      → delete_org env user ref db ≡ ok r
      → OrgStep db r.1

-- Successful operations up to a last store.
pub data OrgSteps (last : Db) : Db → Type 0 where
  stay : OrgSteps last last
  go : (db mid : Db) → OrgStep db mid → OrgSteps last mid → OrgSteps last db

step-Owned : (db last : Db) → OrgStep db last → Owned db → Owned last
step-Owned db last (found env creator name slug logo r h) owned =
    create_org-Owned env creator name slug logo db h owned
step-Owned db last (add env grantor ref address role r h) owned =
    add_member-Owned env grantor ref address role db h owned
step-Owned db last (join env inv o u r h) owned = join_org-Owned env inv o u db h owned
step-Owned db last (promote env grantor ref target role r h) owned =
    update_member_role-Owned env grantor ref target role db h owned
step-Owned db last (remove env grantor ref target r h) owned =
    remove_member-Owned env grantor ref target db h owned
step-Owned db last (delete env user ref r h) owned = delete_org-Owned env user ref db h owned

-- Every organization keeps an owner: from a store where each one has an owner and no user has two
-- rows in one, any sequence of organizations created and deleted, members added, joining by an
-- invite, promoted, demoted and removed, one after the other and by any requests, leads to a store
-- where the same holds.
pub org_history-Owned : (last db : Db) → OrgSteps last db → Owned db → Owned last
org_history-Owned last db stay owned = owned
org_history-Owned last db (go start mid first rest) owned =
    org_history-Owned last mid rest (step-Owned db mid first owned)
