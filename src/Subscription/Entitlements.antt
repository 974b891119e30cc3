-- ===== src/Subscription/Entitlements.antt =====
-- internal/subscription/repository/subscription_repository.go, `EntitlementFor` of
-- internal/subscription/service/subscription_service.go, and the `entitlement` helper of its clients.
use rallya.Common.{
  ℕ, String, str_eq, Bool, Option, none, some, ltb, ◌==◌, ◌∷◌, ◌++◌, [], find, update_first, Tx, ok,
  err, ◌>>=◌, ◌>>◌, gets, modify, pure, if◌then◌else◌, raise_if, is_some,
}
use rallya.Model.Subscription.{
  Plan, OrgSubscription, SubStatus, Entitlement, active, past_due, canceled, is_valid,
  free_entitlement, entitlement_for_plan,
}
use rallya.Store.{
  Db, DbError, Env, call, unique_violation, get_by_org as call_get_by_org,
  get_by_subscription_id as call_get_by_sub, create_subscription, save_subscription,
}

abbrev pub has_org : ℕ → OrgSubscription → Bool
has_org org s = s.org_id == org

abbrev pub has_subscription : String → OrgSubscription → Bool
has_subscription id s = str_eq s.stripe_subscription_id id

-- `GetByOrg`: an absent row is no error.
unfoldable pub get_by_org : Env → ℕ → Tx Db DbError (Option OrgSubscription)
get_by_org env org = do call env call_get_by_org; gets (λ db. find (has_org org) db.subscriptions)

-- `GetBySubscriptionID`
unfoldable pub get_by_subscription_id : Env → String → Tx Db DbError (Option OrgSubscription)
get_by_subscription_id env id = do
  call env call_get_by_sub
  gets (λ db. find (has_subscription id) db.subscriptions)

abbrev pub write_row : OrgSubscription → Db → Db
write_row s db = record db {
  subscriptions = update_first (λ u. u.id == s.id) (λ _. s) db.subscriptions;
}

-- `Save`
unfoldable pub save : Env → OrgSubscription → Tx Db DbError (Unit {0})
save env s = do call env save_subscription; modify (write_row s)

abbrev pub insert_or_replace : Env → OrgSubscription → Option OrgSubscription → Tx Db DbError ℕ
insert_or_replace env s none = do
  call env create_subscription
  clash ← gets (λ db. find (λ u. u.id == s.id) db.subscriptions)
  raise_if (is_some clash) unique_violation
  modify (λ db. record db { subscriptions = db.subscriptions ++ s ∷ [] })
  pure s.id
insert_or_replace env s (some old) = do save env (record s { id = old.id }); pure old.id

-- `Upsert`, by organization; the key of the row that was written.
unfoldable pub upsert : Env → OrgSubscription → Tx Db DbError ℕ
unfolding get_by_org save
upsert env s = do existing ← get_by_org env s.org_id; insert_or_replace env s existing

abbrev pub for_status : Plan → Option ℕ → ℕ → SubStatus → Entitlement
for_status plan grace now active = entitlement_for_plan plan
for_status plan none now past_due = entitlement_for_plan plan
for_status plan (some until) now past_due =
    if ltb now until then entitlement_for_plan plan else free_entitlement
for_status plan grace now canceled = free_entitlement

abbrev pub for_row : ℕ → Option OrgSubscription → Entitlement
for_row now none = free_entitlement
for_row now (some s) =
    if is_valid s.plan then for_status s.plan s.grace_until now s.status else free_entitlement

-- `EntitlementFor`: the error of the lookup is passed on.
unfoldable pub entitlement_for : Env → ℕ → Tx Db DbError Entitlement
unfolding get_by_org
entitlement_for env org = do row ← get_by_org env org; pure (for_row env.now row)

-- A client's `entitlement`: Free when unwired or on error.
unfoldable pub entitlement : Env → ℕ → Db → Entitlement
unfolding entitlement_for
entitlement env org db = elim (entitlement_for env org db) [
  | ok r ↦ if env.plans_wired then r.0 else free_entitlement
  | err e ↦ free_entitlement
]
