-- ===== src/Orgs/Owners.antt =====
-- internal/organization/service: the owners of an organization and the guard of the last one.
use rallya.Common.{
  ℕ, ◌+◌, ◌≤◌, ◌≡◌, refl, inl, inr, Bool, true, false, not, some, List, [], ◌∷◌, ◌++◌, arith, ok,
  find, filter, count, update_first, Bool-cases, All, All-append, All-filter, All-update_first,
  if◌then◌else◌,
}
use rallya.Model.Organization.{Organization, Membership, MemberRole}
use rallya.Store.{Db, Env}
use rallya.Orgs.Rows.{is_of, owns, set_role}
use rallya.Orgs.Members.{keep_owner}
use rallya.Orgs.Lookups.{keep_owner-two}

-- No two rows of one user in one organization: the unique index.
abbrev pub OneRow : List Membership → Type 0
OneRow [] = Unit
OneRow (m ∷ ms) = All (λ n. is_of m.org_id m.user_id n ≡ false) ms × OneRow ms

abbrev pub HasOwner : List Membership → Organization → Type 0
HasOwner ms o = 1 ≤ count (owns o.id) ms

-- Every organization has an owner.
abbrev pub Owned : Db → Type 0
Owned db = OneRow db.memberships × All (HasOwner db.memberships) db.orgs

pub OneRow-append :
    (m : Membership) (ms : List Membership)
    → All (λ n. is_of m.org_id m.user_id n ≡ false) ms
    → OneRow ms
    → OneRow (ms ++ m ∷ [])
OneRow-append m [] none_like one = (tt, tt)
OneRow-append m (n ∷ ms) (differs, none_like) (apart, one) = (
  All-append (λ k. is_of n.org_id n.user_id k ≡ false) ms (m ∷ []) apart (ground arith, tt),
  OneRow-append m ms none_like one,
)

pub OneRow-set_role :
    (org user : ℕ) (role : MemberRole) (ms : List Membership)
    → OneRow ms
    → OneRow (update_first (is_of org user) (set_role role) ms)
OneRow-set_role org user role [] one = tt
OneRow-set_role org user role (n ∷ ms) (apart, one) = elim (Bool-cases (is_of org user n)) [
  | inl here ↦ rw here (apart, one)
  | inr further ↦ rw further (
    All-update_first (λ k. is_of n.org_id n.user_id k ≡ false) (is_of org user) (set_role role) ms
        (λ k e h. h) apart,
    OneRow-set_role org user role ms one,
  )
]

pub OneRow-filter :
    (p : Membership → Bool) (ms : List Membership) → OneRow ms → OneRow (filter p ms)
OneRow-filter p [] one = tt
OneRow-filter p (n ∷ ms) (apart, one) = elim (Bool-cases (p n)) [
  | inl kept ↦
      rw kept
        (All-filter (λ k. is_of n.org_id n.user_id k ≡ false) p ms apart, OneRow-filter p ms one)
  | inr dropped ↦ rw dropped (OneRow-filter p ms one)
]

filter-none :
    (p : Membership → Bool) (ms : List Membership)
    → All (λ n. p n ≡ false) ms
    → filter (λ n. not (p n)) ms ≡ ms
filter-none p [] h = refl
filter-none p (n ∷ ms) (differs, h) = rw (differs, filter-none p ms h) refl

-- Removing the one row of a user moves a count by that row.
pub count_removed :
    (p : Membership → Bool) (org user : ℕ) (m : Membership) (ms : List Membership)
    → OneRow ms
    → find (is_of org user) ms ≡ some m
    → count p (filter (λ n. not (is_of org user n)) ms) + (if p m then 1 else 0) ≡ count p ms
count_removed p org user m [] one found = absurd (ground arith)
count_removed p org user m (n ∷ ms) (apart, one) found = elim (Bool-cases (is_of org user n)) [
  | inl here ↦
      let same : n ≡ m = ground arith in
      let keys : (n.org_id ≡ org) × (n.user_id ≡ user) = (ground arith, ground arith) in
      let others : All (λ k. is_of org user k ≡ false) ms = rw (keys.0, keys.1) at apart in
      rw (here, filter-none (is_of org user) ms others, same) (omega arith)
  | inr further ↦ rw further (omega (arith, count_removed p org user m ms one (ground arith)))
]

-- The guard of a change that takes the role of owner away from a row.
pub still_owned :
    (env : Env) (org j : ℕ) (m : Membership) (loses : Bool) (db : Db) {u : Unit {0}}
    → keep_owner env org loses db ≡ ok (u, db)
    → m.org_id ≡ org
    → (owns j m ≡ true → loses ≡ true)
    → 1 ≤ count (owns j) db.memberships
    → 1 + (if owns j m then 1 else 0) ≤ count (owns j) db.memberships
still_owned env org j m loses db guarded same when has = elim (Bool-cases (owns j m)) [
  | inr not_owner ↦ rw not_owner has
  | inl is_one ↦
      let own : org ≡ j = ground arith in
      let two = keep_owner-two env org loses db guarded (when is_one) in
      let here : 2 ≤ count (owns j) db.memberships = rw own at two in rw is_one here
]

pub found_org :
    (org user : ℕ) (m : Membership) (ms : List Membership)
    → find (is_of org user) ms ≡ some m
    → m.org_id ≡ org
found_org org user m [] h = cc
found_org org user m (n ∷ ms) h = ground (arith, found_org org user m ms)
