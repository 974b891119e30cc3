-- ===== src/Orgs/Joining.antt =====
-- internal/organization/service: how a membership comes about, by `AddMember` and by `AcceptInvite`.
use rallya.Common.{
  ℕ, ◌≤◌, ◌<◌, ◌≡◌, ◌∙◌, ap, String, Bool, true, false, not, some, List, [], ◌∷◌, ◌++◌, arith, ok,
  find, count, update_first, ltb, ◌==◌, All, All-map, count-append, map_err, map_err-eq-ok,
  read-eq-ok, guard-eq-ok, found-eq-ok, bind-eq-ok, written-eq-ok,
}
use rallya.Model.Organization.{Organization, Membership, Invite, MemberRole, admin, level}
use rallya.Store.{Db, Env, User, emit_tx}
use rallya.Subscription.Entitlements.{entitlement}
use rallya.Orgs.Slugs.{normalize_email}
use rallya.Orgs.Types.{
  OrgView, MemberView, call_err, member_err, forbidden, user_not_found, internal, to_org, to_member,
}
use rallya.Orgs.Rows.{is_of, owns, is_invite, stamp, create_membership_row, consume_invite}
use rallya.Orgs.Access.{require_role}
use rallya.Orgs.Manage.{org_entry}
use rallya.Orgs.Members.{add_member, or_member, check_headcount, no_member, new_member}
use rallya.Orgs.Invites.{join_org, new_joiner}
use rallya.Orgs.Owners.{HasOwner, Owned, OneRow-append}
use rallya.Orgs.Founding.{create_membership_row-eq-ok}
use rallya.Orgs.Lookups.{
  require_role-Reads, require_role-found, check_headcount-Reads, check_headcount-room,
  no_member-Reads, emit_tx-orgs,
}

one_more :
    (org max : ℕ) (m : Membership) (ms after_ms : List Membership)
    → after_ms ≡ ms ++ m ∷ []
    → count (λ (n : Membership). n.org_id == org) ms < max
    → count (λ (n : Membership). n.org_id == org) after_ms ≤ max
one_more org max m ms after_ms added room =
    rw (added, count-append (λ (n : Membership). n.org_id == org) ms (m ∷ [])) (ground arith)

consume_invite-eq-ok :
    (env : Env) (id : ℕ) (accepted : Bool) (now : ℕ) (db : Db) {r : Unit {0} × Db}
    → consume_invite env id accepted now db ≡ ok r
    → (r.1.memberships ≡ db.memberships)
      × (r.1.orgs ≡ db.orgs)
      × (r.1.invites ≡ update_first (is_invite id) (stamp accepted now) db.invites)
unfolding consume_invite
consume_invite-eq-ok env id accepted now db h = (ground arith, ground arith, ground arith)

-- A member is added with a role not above the caller's, who is an admin or an owner, and the
-- organization then has at most as many members as its plan allows.
pub add_member-eq-ok :
    (env : Env) (grantor : ℕ) (ref address : String) (asked : MemberRole) (db : Db)
    {r : MemberView × Db}
    → add_member env grantor ref address asked db ≡ ok r
    → (om : Organization × Membership) × (u : User) × (find (is_of om.0.id grantor) db.memberships
        ≡ some om.1)
      × (level admin ≤ level om.1.role)
      × (level (or_member asked) ≤ level om.1.role)
      × (r.1.memberships ≡ db.memberships ++ new_member env om.0.id u.id (or_member asked) ∷ [])
      × (count (λ (m : Membership). m.org_id == om.0.id) r.1.memberships
          ≤ (entitlement env om.0.id db).limits.max_members)
      × All (λ n. is_of om.0.id u.id n ≡ false) db.memberships
      × (r.1.orgs ≡ db.orgs)
unfolding add_member
add_member-eq-ok env grantor ref address asked db {r = r} h =
    let (om, e0, h0) =
      read-eq-ok (require_role env grantor ref admin) _ db
        (require_role-Reads env grantor ref admin) h in
    let role = or_member asked in
    let (within, h1) = guard-eq-ok (ltb (level om.1.role) (level role)) forbidden _ db h0 in
    let (u1, e2, h2) =
      read-eq-ok (check_headcount env om.0.id) _ db (check_headcount-Reads env om.0.id) h1 in
    let (u, named, h3) =
      found-eq-ok (env.get_user_by_email (normalize_email env address)) user_not_found _ db h2 in
    let (live, h4) = guard-eq-ok (not u.is_active) user_not_found _ db h3 in
    let (u2, e5, h5) =
      read-eq-ok (no_member env om.0.id u.id) _ db (no_member-Reads env om.0.id u.id) h4 in
    let m = new_member env om.0.id u.id role in
    let (v, e6, h6) = bind-eq-ok (map_err member_err (create_membership_row env m) db) _ h5 in
    let e = org_entry om.0.id grantor "member.added" "member" u.id in
    let (w, logged, view) = written-eq-ok (emit_tx env internal e) (to_member u role) v.1 h6 in
    let (caller, enough) = require_role-found env grantor ref admin db e0 in
    let (apart, rows, orgs, invites) =
      create_membership_row-eq-ok env m db
        (map_err-eq-ok member_err (create_membership_row env m) db e6) in
    let (orgs', rows', invites', customs') = emit_tx-orgs env e v.1 {r = (w, r.1)} logged in
    let room = check_headcount-room env om.0.id db e2 in
    let added : r.1.memberships ≡ db.memberships ++ m ∷ [] = rows' ∙ rows in
    (
      om,
      u,
      caller,
      enough,
      ground arith,
      added,
      one_more om.0.id (entitlement env om.0.id db).limits.max_members m db.memberships
          r.1.memberships added room,
      apart,
      orgs' ∙ orgs,
    )

-- If every organization has an owner, and no user has two rows in one, both still hold after a
-- member has been added successfully.
pub add_member-Owned :
    (env : Env) (grantor : ℕ) (ref address : String) (asked : MemberRole) (db : Db)
    {r : MemberView × Db}
    → add_member env grantor ref address asked db ≡ ok r
    → Owned db
    → Owned r.1
add_member-Owned env grantor ref address asked db h (one, owned) =
    let (om, u, caller, enough, within, rows, room, apart, orgs) =
      add_member-eq-ok env grantor ref address asked db h in
    let m = new_member env om.0.id u.id (or_member asked) in
    rw (orgs, rows)
      (
        OneRow-append m db.memberships apart one,
        All-map (HasOwner db.memberships) (HasOwner (db.memberships ++ m ∷ [])) db.orgs
            (λ o has. omega (arith, has, count-append (owns o.id) db.memberships (m ∷ []))) owned,
      )

-- What joining by an invite has checked and written.
pub join_org-eq-ok :
    (env : Env) (inv : Invite) (o : Organization) (u : User) (db : Db) {r : OrgView × Db}
    → join_org env inv o u db ≡ ok r
    → (count (λ (m : Membership). m.org_id == o.id) db.memberships
        < (entitlement env o.id db).limits.max_members)
      × All (λ n. is_of o.id u.id n ≡ false) db.memberships
      × (r.1.memberships ≡ db.memberships ++ new_joiner env inv o u ∷ [])
      × (r.1.invites ≡ update_first (is_invite inv.id) (stamp true env.now) db.invites)
      × (r.1.orgs ≡ db.orgs)
      × (r.0 ≡ to_org o inv.role)
unfolding join_org
join_org-eq-ok env inv o u db {r = r} h =
    let (u0, e0, h0) =
      read-eq-ok (check_headcount env o.id) _ db (check_headcount-Reads env o.id) h in
    let m = new_joiner env inv o u in
    let (v, e1, h1) = bind-eq-ok (map_err member_err (create_membership_row env m) db) _ h0 in
    let (w, e2, h2) =
      bind-eq-ok (map_err call_err (consume_invite env inv.id true env.now) v.1) _ h1 in
    let e = org_entry o.id u.id "member.added" "member" u.id in
    let (x, logged, view) = written-eq-ok (emit_tx env internal e) (to_org o inv.role) w.1 h2 in
    let (apart, rows, orgs, invites) =
      create_membership_row-eq-ok env m db
        (map_err-eq-ok member_err (create_membership_row env m) db e1) in
    let (rows', orgs', invites') =
      consume_invite-eq-ok env inv.id true env.now v.1
        (map_err-eq-ok call_err (consume_invite env inv.id true env.now) v.1 e2) in
    let (orgs'', rows'', invites'', customs'') = emit_tx-orgs env e w.1 {r = (x, r.1)} logged in
    (
      check_headcount-room env o.id db e0,
      apart,
      rows'' ∙ (rows' ∙ rows),
      invites'' ∙ (invites' ∙ ap (update_first (is_invite inv.id) (stamp true env.now)) invites),
      orgs'' ∙ (orgs' ∙ orgs),
      view,
    )
