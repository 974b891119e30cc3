-- ===== src/Orgs/Rejoining.antt =====
-- internal/organization/service/invite.go: `AcceptInvite` again, after it has given a membership.
use rallya.Common.{
  ℕ, ◌≡◌, ◌∙◌, sym, ap, refl, inl, inr, Bytes, bytes_eq, true, false, some, List, [], ◌∷◌, ◌++◌,
  arith, ok, find, update_first, ◌==◌, is_some, Bool-cases, All, All-find, Distinct,
}
use rallya.Model.Organization.{Organization, Membership, Invite, is_pending}
use rallya.Store.{
  Db, Env, User, get_org as call_get_org, get_membership as call_get_membership,
  get_invite_by_hash as call_get_invite_by_hash,
}
use rallya.Orgs.Types.{OrgView, to_org}
use rallya.Orgs.Rows.{
  is_of, has_org, is_invite, stamp, get_membership, get_org_by_id, get_invite_by_hash,
}
use rallya.Orgs.Invites.{accept_invite, join_org, new_joiner}
use rallya.Orgs.Joining.{join_org-eq-ok}

-- The invite that a token names is found again after its row has been stamped.
stamped_found :
    (hash : Bytes) (now : ℕ) (inv : Invite) (rows : List Invite)
    → Distinct (λ (i : Invite). i.id) rows
    → find (λ i. bytes_eq i.token_hash hash) rows ≡ some inv
    → find (λ i. bytes_eq i.token_hash hash) (update_first (is_invite inv.id) (stamp true now) rows)
      ≡ some (stamp true now inv)
stamped_found hash now inv [] keys found = absurd (ground arith)
stamped_found hash now inv (i ∷ rows) (apart, keys) found =
    elim (Bool-cases (bytes_eq i.token_hash hash)) [
      | inl mine ↦ let same : i ≡ inv = ground arith in rw same (ground arith)
      | inr another ↦
          let later : find (λ j. bytes_eq j.token_hash hash) rows ≡ some inv = ground arith in
          let differs : (inv.id == i.id) ≡ false =
            All-find (λ j. (j.id == i.id) ≡ false) (λ j. bytes_eq j.token_hash hash) {a = inv} rows
              apart later in
          let kept : (i.id == inv.id) ≡ false = ground arith in
          rw (kept, another) (stamped_found hash now inv rows keys later)
    ]

last_found :
    (org user : ℕ) (m : Membership) (ms : List Membership)
    → All (λ n. is_of org user n ≡ false) ms
    → is_of org user m ≡ true
    → find (is_of org user) (ms ++ m ∷ []) ≡ some m
last_found org user m [] h e = rw e refl
last_found org user m (n ∷ ms) (differs, h) e = rw differs (last_found org user m ms h e)

-- `AcceptInvite` on an invite that is accepted, for a member.
accept_consumed :
    (env : Env) (user : ℕ) (raw : Bytes) (inv : Invite) (u : User) (o : Organization)
    (m : Membership) (db : Db)
    → env.fault call_get_invite_by_hash ≡ false
    → env.fault call_get_org ≡ false
    → env.fault call_get_membership ≡ false
    → find (λ i. bytes_eq i.token_hash (env.hash_token raw)) db.invites ≡ some inv
    → env.get_user user ≡ some u
    → u.is_active ≡ true
    → find (has_org inv.org_id) db.orgs ≡ some o
    → find (is_of o.id u.id) db.memberships ≡ some m
    → is_some inv.accepted_at ≡ true
    → accept_invite env user raw db ≡ ok (to_org o m.role, db)
unfolding accept_invite get_invite_by_hash get_org_by_id get_membership is_pending
accept_consumed env user raw inv u o m db f1 f2 f3 invited known live org member accepted =
    rw (f1, invited, known, live, f2, org, accepted) (rw (accepted, f3, member) refl)

-- Accepting again: after an invite that its token names has given a user a membership, the same
-- request, at any later time, gives the same answer and changes nothing, provided its lookups work
-- and the account is still known and active.
pub accept_invite_again :
    (env env' : Env) (user : ℕ) (raw : Bytes) (inv : Invite) (u : User) (o : Organization) (db : Db)
    {r : OrgView × Db}
    → env'.fault call_get_invite_by_hash ≡ false
    → env'.fault call_get_org ≡ false
    → env'.fault call_get_membership ≡ false
    → Distinct (λ (i : Invite). i.id) db.invites
    → find (λ i. bytes_eq i.token_hash (env'.hash_token raw)) db.invites ≡ some inv
    → env'.get_user user ≡ some u
    → u.is_active ≡ true
    → find (has_org inv.org_id) db.orgs ≡ some o
    → join_org env inv o u db ≡ ok r
    → accept_invite env' user raw r.1 ≡ ok r
accept_invite_again env env' user raw inv u o db {r = r} f1 f2 f3 keys invited known live org h =
    let (room, apart, rows, invites, orgs, view) = join_org-eq-ok env inv o u db h in
    let m = new_joiner env inv o u in
    accept_consumed env' user raw (stamp true env.now inv) u o m r.1 f1 f2 f3
      (rw invites (stamped_found (env'.hash_token raw) env.now inv db.invites keys invited)) known
      live (rw orgs org) (rw rows (last_found o.id u.id m db.memberships apart (ground arith))) refl
    ∙ ap (λ v. ok (v, r.1)) (sym view)
