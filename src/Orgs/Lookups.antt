-- ===== src/Orgs/Lookups.antt =====
-- internal/organization/service: the lookups of a request write nothing, and what they find.
use rallya.Common.{
  ℕ, ◌≡◌, String, codes, trim_space, Bool, true, false, some, arith, ok, find, count, ltb, ◌==◌,
  Option-cases, inl, inr, map_err, map_err-eq-ok, Reads, Reads-map_err, read-eq-ok, guard-eq-ok,
  ◌≤◌, ◌<◌,
}
use rallya.Model.Organization.{Organization, Membership, MemberRole, level}
use rallya.Model.Audit.{Entry}
use rallya.Store.{Db, Env, emit_tx}
use rallya.Subscription.Entitlements.{entitlement}
use rallya.Orgs.Types.{org_err, forbidden, internal}
use rallya.Orgs.Rows.{
  is_of, owns, get_org_by_id, get_org_by_slug, get_membership, count_members, count_owners,
}
use rallya.Orgs.Access.{resolve_org, membership, require_role, guard_last_owner}
use rallya.Orgs.Members.{check_headcount, keep_owner, no_member}

pub get_org_by_id-Reads : (env : Env) (id : ℕ) → Reads (get_org_by_id env id)
unfolding get_org_by_id
get_org_by_id-Reads env id s r h = ground arith

pub get_membership-Reads : (env : Env) (org user : ℕ) → Reads (get_membership env org user)
unfolding get_membership
get_membership-Reads env org user s r h = ground arith

pub get_membership-found :
    (env : Env) (org user : ℕ) (db : Db) {m : Membership}
    → get_membership env org user db ≡ ok (m, db)
    → find (is_of org user) db.memberships ≡ some m
unfolding get_membership
get_membership-found env org user db h = ground arith

pub resolve_org-Reads : (env : Env) (ref : String) → Reads (resolve_org env ref)
unfolding resolve_org get_org_by_id get_org_by_slug
resolve_org-Reads env ref s r h = elim (Option-cases (env.parse_uuid (codes (trim_space ref)))) [
  | inl slug ↦ ground arith
  | inr (id, uuid) ↦ ground arith
]

pub membership-Reads : (env : Env) (user : ℕ) (ref : String) → Reads (membership env user ref)
unfolding membership
membership-Reads env user ref s r h =
    let (o, e0, h0) = read-eq-ok (resolve_org env ref) _ s (resolve_org-Reads env ref) h in
    let (m, e1, h1) =
      read-eq-ok (map_err org_err (get_membership env o.id user)) _ s
        (Reads-map_err org_err (get_membership env o.id user) (get_membership-Reads env o.id user))
        h0 in
    ground arith

pub require_role-Reads :
    (env : Env) (user : ℕ) (ref : String) (min : MemberRole) → Reads (require_role env user ref min)
unfolding require_role
require_role-Reads env user ref min s r h =
    let (om, e0, h0) = read-eq-ok (membership env user ref) _ s (membership-Reads env user ref) h in
    let (enough, h1) = guard-eq-ok (ltb (level om.1.role) (level min)) forbidden _ s h0 in
    ground arith

-- The caller has a row in the organization.
pub membership-found :
    (env : Env) (user : ℕ) (ref : String) (db : Db) {om : Organization × Membership}
    → membership env user ref db ≡ ok (om, db)
    → find (is_of om.0.id user) db.memberships ≡ some om.1
unfolding membership
membership-found env user ref db {om = om} h =
    let (o, e0, h0) = read-eq-ok (resolve_org env ref) _ db (resolve_org-Reads env ref) h in
    let (m, e1, h1) =
      read-eq-ok (map_err org_err (get_membership env o.id user)) _ db
        (Reads-map_err org_err (get_membership env o.id user) (get_membership-Reads env o.id user))
        h0 in
    let found =
      get_membership-found env o.id user db
        (map_err-eq-ok org_err (get_membership env o.id user) db e1) in
    let same_org : o ≡ om.0 = ground arith in
    let same_row : m ≡ om.1 = ground arith in rw (same_org, same_row) at found

pub require_role-found :
    (env : Env) (user : ℕ) (ref : String) (min : MemberRole) (db : Db)
    {om : Organization × Membership}
    → require_role env user ref min db ≡ ok (om, db)
    → (find (is_of om.0.id user) db.memberships ≡ some om.1) × (level min ≤ level om.1.role)
unfolding require_role
require_role-found env user ref min db {om = om} h =
    let (om', e0, h0) =
      read-eq-ok (membership env user ref) _ db (membership-Reads env user ref) h in
    let (enough, h1) = guard-eq-ok (ltb (level om'.1.role) (level min)) forbidden _ db h0 in
    let same : om' ≡ om = ground arith in
    let found = membership-found env user ref db e0 in (rw same at found, ground arith)

guard_last_owner-Reads : (env : Env) (org : ℕ) → Reads (guard_last_owner env org)
unfolding guard_last_owner count_owners
guard_last_owner-Reads env org s r h = ground arith

pub keep_owner-Reads : (env : Env) (org : ℕ) (b : Bool) → Reads (keep_owner env org b)
keep_owner-Reads env org true s r h = guard_last_owner-Reads env org s r h
keep_owner-Reads env org false s r h = ground arith

-- The guard leaves an organization with two owners or more.
pub keep_owner-two :
    (env : Env) (org : ℕ) (b : Bool) (db : Db) {u : Unit {0}}
    → keep_owner env org b db ≡ ok (u, db)
    → b ≡ true
    → 2 ≤ count (owns org) db.memberships
unfolding guard_last_owner count_owners
keep_owner-two env org true db h e = ground arith
keep_owner-two env org false db h e = cc

pub check_headcount-Reads : (env : Env) (org : ℕ) → Reads (check_headcount env org)
unfolding count_members
check_headcount-Reads env org s r h = ground arith

-- The plan has room for one more member.
pub check_headcount-room :
    (env : Env) (org : ℕ) (db : Db) {u : Unit {0}}
    → check_headcount env org db ≡ ok (u, db)
    → count (λ (m : Membership). m.org_id == org) db.memberships
      < (entitlement env org db).limits.max_members
unfolding count_members
check_headcount-room env org db h = ground arith

pub no_member-Reads : (env : Env) (org user : ℕ) → Reads (no_member env org user)
unfolding get_membership
no_member-Reads env org user s r h = ground arith

-- The audit entry touches none of the organization's tables.
pub emit_tx-orgs :
    (env : Env) (e : Entry) (db : Db) {r : Unit {0} × Db}
    → emit_tx env internal e db ≡ ok r
    → (r.1.orgs ≡ db.orgs)
      × (r.1.memberships ≡ db.memberships)
      × (r.1.invites ≡ db.invites)
      × (r.1.custom_roles ≡ db.custom_roles)
emit_tx-orgs env e db h = (ground arith, ground arith, ground arith, ground arith)
