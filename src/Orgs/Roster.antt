-- ===== src/Orgs/Roster.antt =====
-- internal/organization/service/member.go and org_service.go: the owners of an organization over
-- `UpdateMemberRole`, `RemoveMember`, `AddMember` and `CreateOrg`.
use rallya.Common.{
  ℕ, ◌≤◌, ◌≡◌, ◌∙◌, refl, inl, inr, String, not, ◌&&◌, some, arith, ok, find, count, update_first,
  Bool-cases, All-map, count-update_found, map_err, map_err-eq-ok, Reads-map_err, read-eq-ok,
  guard-eq-ok, bind-eq-ok, written-eq-ok,
}
use rallya.Model.Organization.{
  Organization, Membership, MemberRole, owner, admin, member, other, level, is_owner, is_valid,
}
use rallya.Store.{Db, Env, emit_tx}
use rallya.Orgs.Types.{MemberView, call_err, org_err, forbidden, internal, to_member}
use rallya.Orgs.Rows.{is_of, owns, set_role, get_membership, update_member_role_row}
use rallya.Orgs.Access.{require_role}
use rallya.Orgs.Manage.{org_entry}
use rallya.Orgs.Members.{update_member_role, keep_owner, user_or_blank}
use rallya.Orgs.Owners.{HasOwner, Owned, OneRow-set_role, still_owned, found_org}
use rallya.Orgs.Lookups.{
  require_role-Reads, require_role-found, get_membership-Reads, get_membership-found,
  keep_owner-Reads, emit_tx-orgs,
}

update_row-eq-ok :
    (env : Env) (org user : ℕ) (role : MemberRole) (db : Db) {r : Unit {0} × Db}
    → update_member_role_row env org user role db ≡ ok r
    → (r.1.memberships ≡ update_first (is_of org user) (set_role role) db.memberships)
      × (r.1.orgs ≡ db.orgs)
unfolding update_member_role_row
update_row-eq-ok env org user role db h = (ground arith, ground arith)

pub only_owner : (role : MemberRole) → level owner ≤ level role → role ≡ owner
unfolding level
only_owner owner h = refl
only_owner admin h = absurd (ground arith)
only_owner member h = absurd (ground arith)
only_owner other h = absurd (ground arith)

-- What a change of role that succeeds has checked and written.
pub update_member_role-eq-ok :
    (env : Env) (grantor : ℕ) (ref : String) (target : ℕ) (role : MemberRole) (db : Db)
    {r : MemberView × Db}
    → update_member_role env grantor ref target role db ≡ ok r
    → (om : Organization × Membership) × (m : Membership) × (om.1.role ≡ owner)
      × (find (is_of om.0.id grantor) db.memberships ≡ some om.1)
      × (find (is_of om.0.id target) db.memberships ≡ some m)
      × (keep_owner env om.0.id (is_owner m.role && not (is_owner role)) db ≡ ok (tt, db))
      × (r.1.memberships ≡ update_first (is_of om.0.id target) (set_role role) db.memberships)
      × (r.1.orgs ≡ db.orgs)
unfolding update_member_role
update_member_role-eq-ok env grantor ref target role db {r = r} h =
    let (om, e0, h0) =
      read-eq-ok (require_role env grantor ref owner) _ db
        (require_role-Reads env grantor ref owner) h in
    let (valid, h1) = guard-eq-ok (not (is_valid role)) forbidden _ db h0 in
    let (m, e2, h2) =
      read-eq-ok (map_err org_err (get_membership env om.0.id target)) _ db
        (Reads-map_err org_err (get_membership env om.0.id target)
          (get_membership-Reads env om.0.id target))
        h1 in
    let loses = is_owner m.role && not (is_owner role) in
    let (u, e3, h3) =
      read-eq-ok (keep_owner env om.0.id loses) _ db (keep_owner-Reads env om.0.id loses) h2 in
    let (v, e4, h4) =
      bind-eq-ok (map_err call_err (update_member_role_row env om.0.id target role) db) _ h3 in
    let entry = org_entry om.0.id grantor "member.role_changed" "member" target in
    let (w, logged, view) =
      written-eq-ok (emit_tx env internal entry) (to_member (user_or_blank env target) role) v.1
        h4 in
    let (caller, enough) = require_role-found env grantor ref owner db e0 in
    let (rows, orgs) =
      update_row-eq-ok env om.0.id target role db
        (map_err-eq-ok call_err (update_member_role_row env om.0.id target role) db e4) in
    let (orgs', rows', invites', customs') = emit_tx-orgs env entry v.1 {r = (w, r.1)} logged in
    (
      om,
      m,
      only_owner om.1.role enough,
      caller,
      get_membership-found env om.0.id target db
          (map_err-eq-ok org_err (get_membership env om.0.id target) db e2),
      e3,
      rows' ∙ rows,
      orgs' ∙ orgs,
    )

role_kept :
    (env : Env) (org target : ℕ) (role : MemberRole) (m : Membership) (j : ℕ) (db : Db)
    → find (is_of org target) db.memberships ≡ some m
    → m.org_id ≡ org
    → keep_owner env org (is_owner m.role && not (is_owner role)) db ≡ ok (tt, db)
    → 1 ≤ count (owns j) db.memberships
    → 1 ≤ count (owns j) (update_first (is_of org target) (set_role role) db.memberships)
role_kept env org target role m j db found own guarded has = elim (Bool-cases (is_owner role)) [
  | inl stays ↦
      let moved =
        count-update_found (owns j) (is_of org target) (set_role role) {a = m} db.memberships
          found in
      ground (arith, moved)
  | inr goes ↦
      let moved =
        count-update_found (owns j) (is_of org target) (set_role role) {a = m} db.memberships
          found in
      let spare =
        still_owned env org j m (is_owner m.role && not (is_owner role)) db guarded own
          (λ e. ground arith) has in
      omega (arith, moved, spare)
]

-- If every organization has an owner, and no user has two rows in one, both still hold after a
-- change of role that succeeds.
pub update_member_role-Owned :
    (env : Env) (grantor : ℕ) (ref : String) (target : ℕ) (role : MemberRole) (db : Db)
    {r : MemberView × Db}
    → update_member_role env grantor ref target role db ≡ ok r
    → Owned db
    → Owned r.1
update_member_role-Owned env grantor ref target role db h (one, owned) =
    let (om, m, as_owner, caller, found, guarded, rows, orgs) =
      update_member_role-eq-ok env grantor ref target role db h in
    let own = found_org om.0.id target m db.memberships found in
    rw (rows, orgs)
      (
        OneRow-set_role om.0.id target role db.memberships one,
        All-map (HasOwner db.memberships)
            (HasOwner (update_first (is_of om.0.id target) (set_role role) db.memberships)) db.orgs
            (λ o has. role_kept env om.0.id target role m o.id db found own guarded has) owned,
      )
