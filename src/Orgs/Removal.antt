-- ===== src/Orgs/Removal.antt =====
-- internal/organization/service/member.go: what `RemoveMember` checks and writes, and the owners
-- that it leaves.
use rallya.Common.{
  ℕ, ◌≤◌, ◌≡◌, ◌⊎◌, ◌∙◌, ap, refl, inl, inr, String, Bool, true, false, not, some, arith, ok, find,
  filter, count, Bool-cases, ◌==◌, All-map, map_err, map_err-eq-ok, Reads-map_err, read-eq-ok,
  guard-eq-ok, bind-eq-ok,
}
use rallya.Model.Organization.{
  Organization, Membership, MemberRole, owner, admin, member, other, level, is_owner,
}
use rallya.Store.{Db, Env}
use rallya.Orgs.Types.{call_err, org_err, forbidden}
use rallya.Orgs.Rows.{is_of, owns, get_membership, delete_membership_row}
use rallya.Orgs.Access.{membership}
use rallya.Orgs.Manage.{org_entry}
use rallya.Orgs.Members.{remove_member, keep_owner, may_not_remove, drop_custom_roles, holds_any}
use rallya.Orgs.Owners.{
  OneRow, HasOwner, Owned, OneRow-filter, count_removed, still_owned, found_org,
}
use rallya.Orgs.Lookups.{
  membership-Reads, membership-found, get_membership-Reads, get_membership-found, keep_owner-Reads,
  keep_owner-two, emit_tx-orgs,
}

delete_row-eq-ok :
    (env : Env) (org user : ℕ) (db : Db) {r : Unit {0} × Db}
    → delete_membership_row env org user db ≡ ok r
    → (r.1.memberships ≡ filter (λ n. not (is_of org user n)) db.memberships)
      × (r.1.orgs ≡ db.orgs)
      × (r.1.custom_roles ≡ db.custom_roles)
unfolding delete_membership_row
delete_row-eq-ok env org user db h = (ground arith, ground arith, ground arith)

drop_custom_roles-eq-ok :
    (env : Env) (org user : ℕ) (db : Db) {r : Unit {0} × Db}
    → drop_custom_roles env org user db ≡ ok r
    → (r.1.memberships ≡ db.memberships)
      × (r.1.orgs ≡ db.orgs)
      × (r.1.custom_roles ≡ filter (λ n. not (holds_any org user n)) db.custom_roles)
unfolding drop_custom_roles
drop_custom_roles-eq-ok env org user db h = (ground arith, ground arith, ground arith)

pub remove_member-checked :
    (env : Env) (grantor : ℕ) (ref : String) (target : ℕ) (db : Db) {r : Unit {0} × Db}
    → remove_member env grantor ref target db ≡ ok r
    → (om : Organization × Membership) × (m : Membership) × (find
          (is_of om.0.id grantor)
          db.memberships
        ≡ some om.1)
      × (find (is_of om.0.id target) db.memberships ≡ some m)
      × (may_not_remove (grantor == target) om.1.role m.role ≡ false)
      × (keep_owner env om.0.id (is_owner m.role) db ≡ ok (tt, db))
      × (r.1.memberships ≡ filter (λ n. not (is_of om.0.id target n)) db.memberships)
      × (r.1.custom_roles ≡ filter (λ n. not (holds_any om.0.id target n)) db.custom_roles)
      × (r.1.orgs ≡ db.orgs)
unfolding remove_member
remove_member-checked env grantor ref target db {r = r} h =
    let (om, e0, h0) =
      read-eq-ok (membership env grantor ref) _ db (membership-Reads env grantor ref) h in
    let (m, e1, h1) =
      read-eq-ok (map_err org_err (get_membership env om.0.id target)) _ db
        (Reads-map_err org_err (get_membership env om.0.id target)
          (get_membership-Reads env om.0.id target))
        h0 in
    let (may, h2) =
      guard-eq-ok (may_not_remove (grantor == target) om.1.role m.role) forbidden _ db h1 in
    let (u, e3, h3) =
      read-eq-ok (keep_owner env om.0.id (is_owner m.role)) _ db
        (keep_owner-Reads env om.0.id (is_owner m.role)) h2 in
    let (v, e4, h4) =
      bind-eq-ok (map_err call_err (delete_membership_row env om.0.id target) db) _ h3 in
    let (w, e5, h5) =
      bind-eq-ok (map_err call_err (drop_custom_roles env om.0.id target) v.1) _ h4 in
    let entry = org_entry om.0.id grantor "member.removed" "member" target in
    let (rows, orgs, customs) =
      delete_row-eq-ok env om.0.id target db
        (map_err-eq-ok call_err (delete_membership_row env om.0.id target) db e4) in
    let (rows', orgs', customs') =
      drop_custom_roles-eq-ok env om.0.id target v.1
        (map_err-eq-ok call_err (drop_custom_roles env om.0.id target) v.1 e5) in
    let (orgs'', rows'', invites'', customs'') = emit_tx-orgs env entry w.1 h5 in
    (
      om,
      m,
      membership-found env grantor ref db e0,
      get_membership-found env om.0.id target db
          (map_err-eq-ok org_err (get_membership env om.0.id target) db e1),
      may,
      e3,
      rows'' ∙ (rows' ∙ rows),
      customs'' ∙ (customs' ∙ ap (filter (λ n. not (holds_any om.0.id target n))) customs),
      orgs'' ∙ (orgs' ∙ orgs),
    )

-- Who may remove another: an admin or an owner, and an owner only by an owner.
may_not_remove-allowed :
    (grantor target : ℕ) (caller role : MemberRole)
    → may_not_remove (grantor == target) caller role ≡ false
    → (grantor ≡ target)
      ⊎ ((level admin ≤ level caller) × ((is_owner role ≡ false) ⊎ (caller ≡ owner)))
unfolding level
may_not_remove-allowed grantor target caller role h = elim (Bool-cases (grantor == target)) [
  | inl self ↦ inl (ground arith)
  | inr apart ↦ inr (removable caller role (rw apart at h))
]
  where
    removable :
        (c m : MemberRole)
        → may_not_remove false c m ≡ false
        → (level admin ≤ level c) × ((is_owner m ≡ false) ⊎ (c ≡ owner))
    removable owner m k = (ground arith, inr refl)
    removable admin owner k = absurd (ground arith)
    removable admin admin k = (ground arith, inl refl)
    removable admin member k = (ground arith, inl refl)
    removable admin other k = (ground arith, inl refl)
    removable member m k = absurd (ground arith)
    removable other m k = absurd (ground arith)

spare_owner :
    (env : Env) (org : ℕ) (b : Bool) (db : Db)
    → keep_owner env org b db ≡ ok (tt, db)
    → (b ≡ false) ⊎ (2 ≤ count (owns org) db.memberships)
spare_owner env org false db h = inl refl
spare_owner env org true db h = inr (keep_owner-two env org true db h refl)

-- A removal that succeeds was by a member of the organization, of one of its members: of themselves,
-- or by an admin or an owner, and of an owner only by an owner. If the one who went was an owner,
-- the organization had at least two. Afterwards the target has no membership and no custom role in
-- the organization, and all other memberships and custom roles, and the organizations, are as
-- before.
pub remove_member-eq-ok :
    (env : Env) (grantor : ℕ) (ref : String) (target : ℕ) (db : Db) {r : Unit {0} × Db}
    → remove_member env grantor ref target db ≡ ok r
    → (om : Organization × Membership) × (m : Membership) × (find
          (is_of om.0.id grantor)
          db.memberships
        ≡ some om.1)
      × (find (is_of om.0.id target) db.memberships ≡ some m)
      × ((grantor ≡ target)
          ⊎ ((level admin ≤ level om.1.role) × ((is_owner m.role ≡ false) ⊎ (om.1.role ≡ owner))))
      × ((is_owner m.role ≡ false) ⊎ (2 ≤ count (owns om.0.id) db.memberships))
      × (r.1.memberships ≡ filter (λ n. not (is_of om.0.id target n)) db.memberships)
      × (r.1.custom_roles ≡ filter (λ n. not (holds_any om.0.id target n)) db.custom_roles)
      × (r.1.orgs ≡ db.orgs)
remove_member-eq-ok env grantor ref target db h =
    let (om, m, caller, found, may, guarded, rows, customs, orgs) =
      remove_member-checked env grantor ref target db h in
    (
      om,
      m,
      caller,
      found,
      may_not_remove-allowed grantor target om.1.role m.role may,
      spare_owner env om.0.id (is_owner m.role) db guarded,
      rows,
      customs,
      orgs,
    )

removal_kept :
    (env : Env) (org target j : ℕ) (m : Membership) (db : Db)
    → OneRow db.memberships
    → find (is_of org target) db.memberships ≡ some m
    → m.org_id ≡ org
    → keep_owner env org (is_owner m.role) db ≡ ok (tt, db)
    → 1 ≤ count (owns j) db.memberships
    → 1 ≤ count (owns j) (filter (λ n. not (is_of org target n)) db.memberships)
removal_kept env org target j m db one found own guarded has =
    let spare = still_owned env org j m (is_owner m.role) db guarded own (λ e. ground arith) has in
    omega (arith, spare, count_removed (owns j) org target m db.memberships one found)

-- If every organization has an owner, and no user has two rows in one, both still hold after a
-- member has been removed, or has left, successfully.
pub remove_member-Owned :
    (env : Env) (grantor : ℕ) (ref : String) (target : ℕ) (db : Db) {r : Unit {0} × Db}
    → remove_member env grantor ref target db ≡ ok r
    → Owned db
    → Owned r.1
remove_member-Owned env grantor ref target db h (one, owned) =
    let (om, m, caller, found, may, guarded, rows, customs, orgs) =
      remove_member-checked env grantor ref target db h in
    let own = found_org om.0.id target m db.memberships found in
    rw (rows, orgs)
      (
        OneRow-filter (λ n. not (is_of om.0.id target n)) db.memberships one,
        All-map (HasOwner db.memberships)
            (HasOwner (filter (λ n. not (is_of om.0.id target n)) db.memberships)) db.orgs
            (λ o has. removal_kept env om.0.id target o.id m db one found own guarded has) owned,
      )
