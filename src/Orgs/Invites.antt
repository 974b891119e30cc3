-- ===== src/Orgs/Invites.antt =====
-- internal/organization/service/invite.go.
use rallya.Common.{
  ℕ, ◌+◌, String, Bytes, Bool, true, false, not, ◌&&◌, none, some, List, [], ◌∷◌, ◌++◌, ltb, ◌==◌,
  is_some, Tx, Result, ok, err, ◌>>=◌, ◌>>◌, raise_if, or_raise, map_err, pure, gets, modify,
  if◌then◌else◌,
}
use rallya.Model.Organization.{
  Organization, Membership, Invite, MemberRole, admin, level, is_pending,
}
use rallya.Store.{Db, DbError, Env, User, InviteMail, not_found, emit_tx, enqueue}
use rallya.Orgs.Slugs.{normalize_email, display_name, display_name_of}
use rallya.Orgs.Types.{
  OrgError, OrgView, call_err, invite_err, member_err, to_org, forbidden, already_member,
  invalid_invite, invite_consumed, invite_email_mismatch, internal,
}
use rallya.Orgs.Rows.{
  get_membership, create_membership_row, create_invite_row, pending_invite, consume_invite,
  get_invite_by_id, get_invite_by_hash, get_org_by_id, list_invites,
}
use rallya.Orgs.Access.{require_role}
use rallya.Orgs.Manage.{org_entry}
use rallya.Orgs.Members.{or_member, check_headcount}

-- `inviteTTL`, seven days in seconds.
abbrev pub invite_ttl : ℕ
invite_ttl = 604800

-- Whether the address belongs to a member, as far as the reads tell.
abbrev pub is_member_address : Env → ℕ → String → Db → Bool
unfolding get_membership
is_member_address env org_id email db = elim (env.get_user_by_email email) [
  | none ↦ false
  | some u ↦ elim (get_membership env org_id u.id db) [ ok r ↦ true | err e ↦ false ]
]

abbrev pub new_invite : Env → ℕ → ℕ → String → MemberRole → Bytes → Invite
new_invite env grantor org_id email role raw = record {
  id = env.new_id;
  org_id = org_id;
  email = email;
  role = role;
  token_hash = env.hash_token raw;
  expires_at = env.now + invite_ttl;
  accepted_at = none;
  declined_at = none;
  invited_by = some grantor;
}

abbrev pub invite_mail : Env → Organization → ℕ → String → MemberRole → Bytes → InviteMail
unfolding display_name display_name_of
invite_mail env o grantor email role raw = record {
  org_id = o.id;
  org_name = o.name;
  org_slug = o.slug;
  email = email;
  name = display_name email none;
  role = role;
  inviter_name = display_name_of (env.get_user grantor);
  raw_token = raw;
}

-- The rest of the transaction, given what the search for an open invite gave.
abbrev pub supersede : Env → Result DbError (Invite × Db) → Db → Result OrgError (Unit {0} × Db)
unfolding consume_invite
supersede env (ok r) db = map_err call_err (consume_invite env r.0.id false env.now) db
supersede env (err not_found) db = ok (tt, db)
supersede env (err e) db = err internal

abbrev pub supersede_open : Env → ℕ → String → Tx Db OrgError (Unit {0})
unfolding pending_invite consume_invite
supersede_open env org_id email db = supersede env (pending_invite env org_id email db) db

-- `enqueueTx` of an invite mail
abbrev pub enqueue_invite : Env → InviteMail → Tx Db OrgError (Unit {0})
enqueue_invite env mail = do
  raise_if (env.mailer_wired && env.fault enqueue) internal
  modify (λ db. record db {
    invite_mails = if env.mailer_wired then db.invite_mails ++ mail ∷ [] else db.invite_mails;
  })

-- `InviteMember`
unfoldable pub invite_member : Env → ℕ → String → String → MemberRole → Tx Db OrgError (Unit {0})
unfolding require_role create_invite_row pending_invite consume_invite get_membership
    normalize_email level
invite_member env grantor ref address asked = do
  om ← require_role env grantor ref admin
  let role = or_member asked
  raise_if (ltb (level om.1.role) (level role)) forbidden
  let email = normalize_email env address
  taken ← gets (is_member_address env om.0.id email)
  raise_if taken already_member
  raw ← or_raise env.invite_token internal
  supersede_open env om.0.id email
  map_err call_err (create_invite_row env (new_invite env grantor om.0.id email role raw))
  enqueue_invite env (invite_mail env om.0 grantor email role raw)

-- `ListInvites`, from the first row, with the total.
unfoldable pub list_open_invites : Env → ℕ → String → ℕ → Tx Db OrgError (List Invite × ℕ)
unfolding require_role list_invites
list_open_invites env user ref limit = do
  om ← require_role env user ref admin
  map_err call_err (list_invites env om.0.id limit)

-- `RevokeInvite`, with `revokeInvite` and `getInvite`
unfoldable pub revoke_invite : Env → ℕ → String → ℕ → Tx Db OrgError (Unit {0})
unfolding require_role get_invite_by_id is_pending consume_invite
revoke_invite env user ref invite_id = do
  om ← require_role env user ref admin
  inv ← map_err invite_err (get_invite_by_id env invite_id)
  raise_if (not (inv.org_id == om.0.id && is_pending inv env.now)) invalid_invite
  map_err call_err (consume_invite env inv.id false env.now)

abbrev pub new_joiner : Env → Invite → Organization → User → Membership
new_joiner env inv o u = record {
  id = env.new_id;
  org_id = o.id;
  user_id = u.id;
  role = inv.role;
  notify_events = true;
}

-- The membership that an invite gives.
unfoldable pub join_org : Env → Invite → Organization → User → Tx Db OrgError OrgView
unfolding create_membership_row consume_invite to_org
join_org env inv o u = do
  check_headcount env o.id
  map_err member_err (create_membership_row env (new_joiner env inv o u))
  map_err call_err (consume_invite env inv.id true env.now)
  emit_tx env internal (org_entry o.id u.id "member.added" "member" u.id)
  pure (to_org o inv.role)

-- A consumed invite, of a member or not.
abbrev pub replayed : Organization → Result DbError (Membership × Db) → Tx Db OrgError OrgView
unfolding to_org
replayed o (ok r) db = ok (to_org o r.0.role, db)
replayed o (err e) db = err invalid_invite

-- The failure of a write whose error is dropped leaves the store as it was.
abbrev pub best_effort : Result DbError (Unit {0} × Db) → Db → Db
best_effort (ok r) db = r.1
best_effort (err e) db = db

-- An open invite, of a member or not.
abbrev pub accept_open :
    Env → Invite → Organization → User → Result DbError (Membership × Db) → Tx Db OrgError OrgView
unfolding join_org consume_invite to_org
accept_open env inv o u (ok r) db =
    ok (to_org o r.0.role, best_effort (consume_invite env inv.id true env.now db) db)
accept_open env inv o u (err e) db = join_org env inv o u db

-- `AcceptInvite`
unfoldable pub accept_invite : Env → ℕ → Bytes → Tx Db OrgError OrgView
unfolding get_invite_by_hash get_org_by_id is_pending get_membership join_org consume_invite
accept_invite env user raw = do
  inv ← map_err invite_err (get_invite_by_hash env (env.hash_token raw))
  u ← or_raise (env.get_user user) invalid_invite
  raise_if (not u.is_active) forbidden
  o ← map_err (λ _. invalid_invite) (get_org_by_id env inv.org_id)
  elim (is_pending inv env.now) [
    | false ↦ do
      raise_if (not (is_some inv.accepted_at)) invalid_invite
      λ db. replayed o (get_membership env o.id u.id db) db
    | true ↦ do
      raise_if (not (env.equal_fold u.email inv.email)) invite_email_mismatch
      λ db. accept_open env inv o u (get_membership env o.id u.id db) db
  ]

-- `DeclineInvite`
unfoldable pub decline_invite : Env → ℕ → Bytes → Tx Db OrgError (Unit {0})
unfolding get_invite_by_hash consume_invite
decline_invite env user raw = do
  inv ← map_err invite_err (get_invite_by_hash env (env.hash_token raw))
  raise_if (is_some inv.accepted_at) invite_consumed
  elim (is_some inv.declined_at) [
    | true ↦ pure tt
    | false ↦ do
      raise_if (ltb inv.expires_at env.now) invalid_invite
      u ← or_raise (env.get_user user) invalid_invite
      raise_if (not (env.equal_fold u.email inv.email)) invite_email_mismatch
      map_err call_err (consume_invite env inv.id false env.now)
  ]
