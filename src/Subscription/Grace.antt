-- ===== src/Subscription/Grace.antt =====
-- internal/subscription/service/subscription_service.go: `EntitlementFor` and the plan it grants.
use rallya.Common.{
  ℕ, ◌≡◌, refl, sym, ap, ◌∙◌, ◌↔◌, Bool, true, false, Option, none, some, arith, find, Bool-cases,
  inl, inr, ltb, if◌then◌else◌, ◌&&◌, not,
}
use rallya.Model.Subscription.{
  Plan, OrgSubscription, active, past_due, canceled, is_valid, is_paid, entitlement_for_plan,
  free_entitlement, unknown, free, pro, scale,
}
use rallya.Store.{Db, Env, get_by_org as call_get_by_org}
use rallya.Subscription.Entitlements.{entitlement, for_row, has_org}

-- The row grants its plan at this time: it is active, or in its grace.
abbrev pub is_granting : ℕ → OrgSubscription → Bool
is_granting now s = elim s.status [
  | active ↦ true
  | past_due ↦ elim s.grace_until [ none ↦ true | some until ↦ ltb now until ]
  | canceled ↦ false
]

abbrev Grants : ℕ → Plan → Option OrgSubscription → Type 0
Grants now plan row =
    (s : OrgSubscription) × (row ≡ some s) × (s.plan ≡ plan) × (is_granting now s ≡ true)

free-plan : free_entitlement.plan ≡ free
unfolding free_entitlement
free-plan = refl

entitlement_for_plan-plan : (p : Plan) → is_valid p ≡ true → (entitlement_for_plan p).plan ≡ p
unfolding entitlement_for_plan
entitlement_for_plan-plan free h = refl
entitlement_for_plan-plan pro h = refl
entitlement_for_plan-plan scale h = refl
entitlement_for_plan-plan unknown h = cc

paid-valid : (p : Plan) → is_paid p ≡ true → is_valid p ≡ true
paid-valid p h = ground arith

for_row-plan :
    (now : ℕ) (s : OrgSubscription)
    → (for_row now (some s)).plan
      ≡ (if is_granting now s then (if is_valid s.plan then s.plan else free) else free)
for_row-plan now s = ground (arith, free-plan, entitlement_for_plan-plan s.plan)

for_row-Grants :
    (now : ℕ) (plan : Plan) (row : Option OrgSubscription)
    → is_paid plan ≡ true
    → ((for_row now row).plan ≡ plan) ↔ Grants now plan row
for_row-Grants now plan none paid =
    (λ h. absurd (ground (arith, free-plan)), λ (s, e, same, on). absurd (ground arith))
for_row-Grants now plan (some s) paid = (
  λ h. (s, refl, ground (arith, for_row-plan now s), ground (arith, for_row-plan now s)),
  λ (t, e, same, grants). ground (arith, for_row-plan now s),
)

-- A provider is wired, and its lookup does not fail.
abbrev pub is_served : Env → Bool
is_served env = env.plans_wired && not (env.fault call_get_by_org)

entitlement-served :
    (env : Env) (org : ℕ) (db : Db)
    → entitlement env org db ≡ (
        if is_served env
        then for_row env.now (find (has_org org) db.subscriptions)
        else free_entitlement)
unfolding entitlement
entitlement-served env org db = elim (Bool-cases (env.fault call_get_by_org)) [
  | inl fails ↦ ground arith
  | inr works ↦ ground arith
]

-- A paid plan is granted exactly if a provider is wired, its lookup works, and the organization
-- has a row with that plan that is active, or past due with its grace not over.
pub entitlement_iff :
    (env : Env) (org : ℕ) (db : Db) (plan : Plan)
    → is_paid plan ≡ true
    → ((entitlement env org db).plan ≡ plan) ↔ (
        (is_served env ≡ true)
        × ((s : OrgSubscription) × (find (has_org org) db.subscriptions ≡ some s)
            × (s.plan ≡ plan)
            × (is_granting env.now s ≡ true)))
entitlement_iff env org db plan paid = elim (Bool-cases (is_served env)) [
  | inl served ↦
      let same : entitlement env org db ≡ for_row env.now (find (has_org org) db.subscriptions) =
        entitlement-served env org db ∙ rw served refl in
      let rule = for_row-Grants env.now plan (find (has_org org) db.subscriptions) paid in
      (
        λ h. (served, rule.0 (ap (λ x. x.plan) (sym same) ∙ h)),
        λ h. ap (λ x. x.plan) same ∙ rule.1 h.1,
      )
  | inr unserved ↦
      let same : entitlement env org db ≡ free_entitlement =
        entitlement-served env org db ∙ rw unserved refl in
      (λ h. absurd (ground (arith, free-plan)), λ h. absurd (ground arith))
]
