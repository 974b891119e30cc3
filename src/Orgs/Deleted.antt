-- ===== src/Orgs/Deleted.antt =====
-- internal/organization/service/org_service.go: `uniqueSlug` always answers, what `DeleteOrg`
-- leaves, and slugs of deleted organizations.
use rallya.Common.{
  ℕ, zero, suc, ◌+◌, ◌≡◌, ◌⊎◌, ◌∙◌, ap, refl, inl, inr, String, Bytes, is_empty, trim_space, true,
  false, not, Option, none, some, ◌∷◌, ◌++◌, arith, ok, err, find, is_some, update_first, take,
  Bool-cases, Option-cases, map_err, map_err-eq-ok, Reads-map_err, read-eq-ok, bind-eq-ok, Reads,
}
use rallya.Model.Organization.{Organization, Membership, owner}
use rallya.Store.{
  Db, Env, emit_tx, create_org as call_create_org, get_org_by_slug as call_get_org_by_slug,
}
use rallya.Orgs.Types.{call_err, slug_taken, internal}
use rallya.Orgs.Rows.{
  is_of, has_slug, has_org, org_clash, org_fits, create_org_row, delete_org_row, get_org_by_slug,
  list_memberships,
}
use rallya.Orgs.Access.{require_role}
use rallya.Orgs.Manage.{
  create_org, delete_org, insert_org, attempts, unique_slug, base_slug, new_org, org_entry,
  numbered, probe, probe_from, with_suffix,
}
use rallya.Orgs.Roster.{only_owner}
use rallya.Orgs.Lookups.{require_role-Reads, require_role-found, emit_tx-orgs}

-- A lookup that does not fail tells whether a live organization has the slug.
probe-answer :
    (env : Env) (slug : Bytes) (db : Db)
    → env.fault call_get_org_by_slug ≡ false
    → probe env slug db ≡ ok (not (is_some (find (has_slug slug) db.orgs)))
unfolding get_org_by_slug
probe-answer env slug db works = elim (Option-cases (find (has_slug slug) db.orgs)) [
  | inl free ↦ ground arith
  | inr (o, taken) ↦ ground arith
]

-- Free among the organizations that are not deleted, or base with six random characters.
abbrev pub IsFresh : Bytes → Bytes → Bytes → Db → Type 0
IsFresh base raw slug db = (find (has_slug slug) db.orgs ≡ none) ⊎ (slug ≡ base ++ 45 ∷ take 6 raw)

none_of_free : {A : Type 0} (o : Option A) → not (is_some o) ≡ true → o ≡ none
none_of_free none h = refl
none_of_free (some a) h = cc

probe_from-total :
    (env : Env) (base raw : Bytes) (i left : ℕ) (db : Db)
    → env.fault call_get_org_by_slug ≡ false
    → env.slug_token ≡ some raw
    → (slug : Bytes) × (probe_from env base i left db ≡ ok slug) × IsFresh base raw slug db
probe_from-total env base raw i zero db works token =
    (base ++ 45 ∷ take 6 raw, ap (with_suffix base) token, inr refl)
probe_from-total env base raw i (suc left) db works token =
    let answer = probe-answer env (numbered base i) db works in
    let (later, found, fresh) = probe_from-total env base raw (i + 1) left db works token in
    elim (Bool-cases (not (is_some (find (has_slug (numbered base i)) db.orgs)))) [
      | inl free ↦ (numbered base i, rw (answer, free) refl, inl (none_of_free _ free))
      | inr taken ↦ (later, rw (answer, taken) found, fresh)
    ]

-- `uniqueSlug` always gives a slug, when its lookups and its random source work: one that no
-- organization has but deleted ones, or the base with six random characters.
pub unique_slug-total :
    (env : Env) (base raw : Bytes) (db : Db)
    → env.fault call_get_org_by_slug ≡ false
    → env.slug_token ≡ some raw
    → (slug : Bytes) × (unique_slug env base db ≡ ok slug) × IsFresh base raw slug db
unfolding unique_slug
unique_slug-total env base raw db works token =
    let answer = probe-answer env base db works in
    let (later, found, fresh) = probe_from-total env base raw 2 98 db works token in
    elim (Bool-cases (not (is_some (find (has_slug base) db.orgs)))) [
      | inl free ↦ (base, rw (answer, free) refl, inl (none_of_free _ free))
      | inr taken ↦ (later, rw (answer, taken) found, fresh)
    ]

unique_slug-free :
    (env : Env) (base : Bytes) (db : Db)
    → env.fault call_get_org_by_slug ≡ false
    → find (has_slug base) db.orgs ≡ none
    → unique_slug env base db ≡ ok base
unfolding unique_slug
unique_slug-free env base db works free = rw (probe-answer env base db works, free) refl

-- A row that only deleted organizations share the slug with is refused.
insert_taken :
    (env : Env) (creator : ℕ) (o dead : Organization) (db : Db)
    → env.fault call_create_org ≡ false
    → org_fits o ≡ true
    → find (org_clash o) db.orgs ≡ some dead
    → insert_org env creator o db ≡ err slug_taken
unfolding insert_org create_org_row
insert_taken env creator o dead db works fits taken = rw (works, fits, taken) refl

attempts_taken :
    (env : Env) (creator : ℕ) (name : String) (base : Bytes) (logo : String) (left : ℕ)
    (dead : Organization) (db : Db)
    → env.fault call_get_org_by_slug ≡ false
    → env.fault call_create_org ≡ false
    → find (has_slug base) db.orgs ≡ none
    → org_fits (new_org env creator name base logo) ≡ true
    → find (org_clash (new_org env creator name base logo)) db.orgs ≡ some dead
    → attempts env creator name base logo left db ≡ err slug_taken
attempts_taken env creator name base logo zero dead db f1 f2 free fits taken = refl
attempts_taken env creator name base logo (suc left) dead db f1 f2 free fits taken =
    let again = attempts_taken env creator name base logo left dead db f1 f2 free fits taken in
    let refused =
      insert_taken env creator (new_org env creator name base logo) dead db f2 fits taken in
    rw (unique_slug-free env base db f1 free, refused) again

-- The slug of a deleted organization stays taken: when the slug derived from the name belongs to a
-- deleted organization and to no other, `CreateOrg` without a slug answers that it is taken, after
-- all its attempts, when its lookups and inserts work.
pub create_org-taken :
    (env : Env) (creator : ℕ) (name slug logo : String) (dead : Organization) (db : Db)
    → env.fault call_get_org_by_slug ≡ false
    → env.fault call_create_org ≡ false
    → is_empty (trim_space name) ≡ false
    → is_empty (trim_space slug) ≡ true
    → find (has_slug (base_slug env (trim_space name))) db.orgs ≡ none
    → org_fits (new_org env creator (trim_space name) (base_slug env (trim_space name)) logo) ≡ true
    → find
        (org_clash (new_org env creator (trim_space name) (base_slug env (trim_space name)) logo))
        db.orgs
      ≡ some dead
    → create_org env creator name slug logo db ≡ err slug_taken
unfolding create_org
create_org-taken env creator name slug logo dead db f1 f2 named derived free fits taken =
    rw (named, derived)
      (attempts_taken env creator (trim_space name) (base_slug env (trim_space name)) logo 4 dead db
        f1 f2 free fits taken)

delete_org_row-eq-ok :
    (env : Env) (id : ℕ) (db : Db) {r : Unit {0} × Db}
    → delete_org_row env id db ≡ ok r
    → (r.1.orgs ≡ update_first (has_org id) (λ o. record o { deleted = true }) db.orgs)
      × (r.1.memberships ≡ db.memberships)
      × (r.1.invites ≡ db.invites)
unfolding delete_org_row
delete_org_row-eq-ok env id db h = (ground arith, ground arith, ground arith)

list_memberships-Reads : (env : Env) (id limit : ℕ) → Reads (list_memberships env id limit)
unfolding list_memberships
list_memberships-Reads env id limit s r h = ground arith

-- Only an owner deletes an organization. Its row is kept and marked, and every membership and
-- every invite stays.
pub delete_org-eq-ok :
    (env : Env) (user : ℕ) (ref : String) (db : Db) {r : Unit {0} × Db}
    → delete_org env user ref db ≡ ok r
    → (om : Organization × Membership) × (find (is_of om.0.id user) db.memberships ≡ some om.1)
      × (om.1.role ≡ owner)
      × (r.1.orgs ≡ update_first (has_org om.0.id) (λ o. record o { deleted = true }) db.orgs)
      × (r.1.memberships ≡ db.memberships)
      × (r.1.invites ≡ db.invites)
unfolding delete_org
delete_org-eq-ok env user ref db {r = r} h =
    let (om, e0, h0) =
      read-eq-ok (require_role env user ref owner) _ db (require_role-Reads env user ref owner) h in
    let (ms, e1, h1) =
      read-eq-ok (map_err call_err (list_memberships env om.0.id 100000)) _ db
        (Reads-map_err call_err (list_memberships env om.0.id 100000)
          (list_memberships-Reads env om.0.id 100000))
        h0 in
    let entry = org_entry om.0.id user "org.deleted" "organization" om.0.id in
    let (v, logged, h2) = bind-eq-ok (emit_tx env internal entry db) _ h1 in
    let (caller, enough) = require_role-found env user ref owner db e0 in
    let (orgs, rows, invites, customs) = emit_tx-orgs env entry db logged in
    let (orgs', rows', invites') =
      delete_org_row-eq-ok env om.0.id v.1
        (map_err-eq-ok call_err (delete_org_row env om.0.id) v.1 h2) in
    (
      om,
      caller,
      only_owner om.1.role enough,
      orgs' ∙ ap (update_first (has_org om.0.id) (λ o. record o { deleted = true })) orgs,
      rows' ∙ rows,
      invites' ∙ invites,
    )
