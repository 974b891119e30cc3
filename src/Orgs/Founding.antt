-- ===== src/Orgs/Founding.antt =====
-- internal/organization/service/org_service.go: what `CreateOrg` and `DeleteOrg` write, and the
-- slugs that `CreateOrg` derives.
use rallya.Common.{
  ℕ, zero, suc, ◌<◌, ◌≡◌, ◌⊎◌, ◌∙◌, ap, refl, inl, inr, String, Bytes, is_nil, is_empty, trim_space,
  Bool, true, false, not, ◌||◌, none, [], ◌∷◌, ◌++◌, arith, ok, err, find, Bool-cases, Option-cases,
  ◌==◌, All, All-map, All-append, All-of_find-none, count-append, map_err, map_err-eq-ok,
  guard-eq-ok, bind-eq-ok, written-eq-ok, Result,
}
use rallya.Model.Organization.{Organization, Membership, owner}
use rallya.Store.{Db, Env, emit_tx}
use rallya.Orgs.Slugs.{is_slug, slugify, slugify-slug, matches-append, decimal}
use rallya.Orgs.Types.{
  OrgView, OrgError, call_err, slug_err, slug_taken, invalid_name, invalid_slug, internal, to_org,
}
use rallya.Orgs.Rows.{is_of, owns, org_clash, org_fits, create_org_row, create_membership_row}
use rallya.Orgs.Manage.{
  create_org, insert_org, attempts, unique_slug, base_slug, lowered, new_org, org_entry,
  first_owner, numbered, retry,
}
use rallya.Orgs.Owners.{HasOwner, Owned, OneRow-append}
use rallya.Orgs.Lookups.{emit_tx-orgs}

create_org_row-eq-ok :
    (env : Env) (o : Organization) (db : Db) {r : Unit {0} × Db}
    → create_org_row env o db ≡ ok r
    → (org_fits o ≡ true)
      × (find (org_clash o) db.orgs ≡ none)
      × (r.1.orgs ≡ db.orgs ++ o ∷ [])
      × (r.1.memberships ≡ db.memberships)
unfolding create_org_row
create_org_row-eq-ok env o db h = elim (Option-cases (find (org_clash o) db.orgs)) [
  | inl free ↦ (ground arith, free, ground arith, ground arith)
  | inr (p, taken) ↦ absurd (ground arith)
]

pub create_membership_row-eq-ok :
    (env : Env) (m : Membership) (db : Db) {r : Unit {0} × Db}
    → create_membership_row env m db ≡ ok r
    → All (λ n. is_of m.org_id m.user_id n ≡ false) db.memberships
      × (r.1.memberships ≡ db.memberships ++ m ∷ [])
      × (r.1.orgs ≡ db.orgs)
      × (r.1.invites ≡ db.invites)
unfolding create_membership_row
create_membership_row-eq-ok env m db h =
    let clash : Membership → Bool = λ n. n.id == m.id || is_of m.org_id m.user_id n in
    elim (Option-cases (find clash db.memberships)) [
      | inl free ↦ (
        All-map (λ n. clash n ≡ false) (λ n. is_of m.org_id m.user_id n ≡ false) db.memberships
            (λ n apart. ground arith) (All-of_find-none clash db.memberships free),
        ground arith,
        ground arith,
        ground arith,
      )
      | inr (n, taken) ↦ absurd (ground arith)
    ]

-- An organization that is inserted has a well-formed slug of its own and its creator as owner.
pub insert_org-eq-ok :
    (env : Env) (creator : ℕ) (o : Organization) (db : Db) {r : OrgView × Db}
    → insert_org env creator o db ≡ ok r
    → (org_fits o ≡ true)
      × (find (org_clash o) db.orgs ≡ none)
      × (r.0 ≡ to_org o owner)
      × (r.1.orgs ≡ db.orgs ++ o ∷ [])
      × (r.1.memberships ≡ db.memberships ++ first_owner env creator ∷ [])
      × All (λ n. is_of env.new_id creator n ≡ false) db.memberships
unfolding insert_org
insert_org-eq-ok env creator o db {r = r} h =
    let (v, e0, h0) = bind-eq-ok (map_err slug_err (create_org_row env o) db) _ h in
    let m = first_owner env creator in
    let (w, e1, h1) = bind-eq-ok (map_err call_err (create_membership_row env m) v.1) _ h0 in
    let e = org_entry o.id creator "org.created" "organization" o.id in
    let (u, logged, view) = written-eq-ok (emit_tx env internal e) (to_org o owner) w.1 h1 in
    let (fits, free, orgs, rows) =
      create_org_row-eq-ok env o db (map_err-eq-ok slug_err (create_org_row env o) db e0) in
    let (apart, rows', orgs', invites') =
      create_membership_row-eq-ok env m v.1
        (map_err-eq-ok call_err (create_membership_row env m) v.1 e1) in
    let (orgs'', rows'', invites'', customs'') = emit_tx-orgs env e w.1 {r = (u, r.1)} logged in
    (
      fits,
      free,
      view,
      orgs'' ∙ (orgs' ∙ orgs),
      rows'' ∙ (rows' ∙ ap (λ ms. ms ++ m ∷ []) rows),
      rw rows at apart,
    )

retry-eq-ok :
    (x again : Result OrgError (OrgView × Db)) {r : OrgView × Db}
    → retry x again ≡ ok r
    → (x ≡ ok r) ⊎ (again ≡ ok r)
retry-eq-ok (ok y) again h = inl h
retry-eq-ok (err slug_taken) again h = inr h
retry-eq-ok (err e) again h = absurd (ground arith)

Result-cases : {E A : Type 0} (x : Result E A) → ((e : E) × (x ≡ err e)) ⊎ ((a : A) × (x ≡ ok a))
Result-cases (err e) = inl (e, refl)
Result-cases (ok a) = inr (a, refl)

attempts-eq-ok :
    (env : Env) (creator : ℕ) (name : String) (base : Bytes) (logo : String) (left : ℕ) (db : Db)
    {r : OrgView × Db}
    → attempts env creator name base logo left db ≡ ok r
    → (slug : Bytes) × (insert_org env creator (new_org env creator name slug logo) db ≡ ok r)
attempts-eq-ok env creator name base logo zero db h = absurd (ground arith)
attempts-eq-ok env creator name base logo (suc left) db {r = r} h =
    elim (Result-cases (unique_slug env base db)) [
      | inl (e, failed) ↦ absurd (ground arith)
      | inr (slug, found) ↦
          let x = insert_org env creator (new_org env creator name slug logo) db in
          let again = attempts env creator name base logo left db in
          let tried : retry x again ≡ ok r = ground arith in
          elim (retry-eq-ok x again tried) [
            | inl inserted ↦ (slug, inserted)
            | inr later ↦ attempts-eq-ok env creator name base logo left db later
          ]
    ]

-- `CreateOrg` that succeeds has inserted an organization under some slug.
pub create_org-eq-ok :
    (env : Env) (creator : ℕ) (name slug logo : String) (db : Db) {r : OrgView × Db}
    → create_org env creator name slug logo db ≡ ok r
    → (o : Organization) × (o.id ≡ env.new_id) × (insert_org env creator o db ≡ ok r)
unfolding create_org
create_org-eq-ok env creator name slug logo db {r = r} h =
    let (named, h0) = guard-eq-ok (is_empty (trim_space name)) invalid_name _ db h in
    elim (Bool-cases (is_empty (trim_space slug))) [
      | inl derived ↦
          let tried : attempts env creator (trim_space name) (base_slug env (trim_space name)) logo
                4 db
              ≡ ok r =
            rw derived at h0 in
          let (found, inserted) =
            attempts-eq-ok env creator (trim_space name) (base_slug env (trim_space name)) logo 4 db
              tried in
          (new_org env creator (trim_space name) found logo, refl, inserted)
      | inr explicit ↦
          let h1 = rw explicit at h0 in
          let (shaped, inserted) =
            guard-eq-ok (not (is_slug (lowered env slug))) invalid_slug _ db h1 in
          (new_org env creator name (lowered env slug) logo, refl, inserted)
    ]

-- If every organization has an owner, and no user has two rows in one, both still hold after an
-- organization has been created successfully.
pub create_org-Owned :
    (env : Env) (creator : ℕ) (name slug logo : String) (db : Db) {r : OrgView × Db}
    → create_org env creator name slug logo db ≡ ok r
    → Owned db
    → Owned r.1
create_org-Owned env creator name slug logo db h (one, owned) =
    let (o, fresh, inserted) = create_org-eq-ok env creator name slug logo db h in
    let (fits, free, view, orgs, rows, apart) = insert_org-eq-ok env creator o db inserted in
    let m = first_owner env creator in
    let ms = db.memberships ++ m ∷ [] in
    rw (orgs, rows)
      (
        OneRow-append m db.memberships apart one,
        All-append (HasOwner ms) db.orgs (o ∷ [])
            (All-map (HasOwner db.memberships) (HasOwner ms) db.orgs
              (λ p has. omega (arith, has, count-append (owns p.id) db.memberships (m ∷ []))) owned)
            (rw (count-append (owns o.id) db.memberships (m ∷ []), fresh) (ground arith), tt),
      )

base_is_slug : (env : Env) (name : String) → is_slug (base_slug env name) ≡ true
base_is_slug env name = elim (slugify-slug env name) [
  | inl nothing ↦ rw nothing refl
  | inr shaped ↦ elim (Bool-cases (is_nil (slugify env name))) [
    | inl empty ↦ rw empty refl
    | inr full ↦ rw full shaped
  ]
]

decimal-word : (i : ℕ) → i < 100 → is_slug (decimal i) ≡ true
decimal-word i few = ground arith

-- The name of an organization gives a well-formed slug, and so does every numbered one.
pub base_slug-slug :
    (env : Env) (name : String)
    → (is_slug (base_slug env name) ≡ true)
      × ((i : ℕ) → i < 100 → is_slug (numbered (base_slug env name) i) ≡ true)
base_slug-slug env name =
    let base : is_slug (base_slug env name) ≡ true = base_is_slug env name in
    (base, λ i few. matches-append false (base_slug env name) (decimal i) base ∙ decimal-word i few)
