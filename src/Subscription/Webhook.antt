-- ===== src/Subscription/Webhook.antt =====
-- internal/subscription/service/webhook.go: the billing events. An event is given as the fields that
-- the handlers decode from it; `none` stands for a payload that does not decode.
use rallya.Common.{
  ℕ, ◌+◌, ◌*◌, String, Bool, true, false, not, ◌&&◌, Option, none, some, ◌++◌, ◌∷◌, [], Tx, ◌>>=◌,
  ◌>>◌, modify, pure, is_empty, if◌then◌else◌, is_some,
}
use rallya.Model.Subscription.{
  Plan, OrgSubscription, SubStatus, SubInfo, canceled, is_paid, is_past_due,
}
use rallya.Model.Audit.{Entry}
use rallya.Store.{Db, DbError, Env, emit}
use rallya.Subscription.Entitlements.{upsert, save, get_by_subscription_id}

-- `PastDueGraceDays`, and a day in the clock's unit.
abbrev pub past_due_grace_days : ℕ
past_due_grace_days = 7

abbrev pub day : ℕ
day = 86400

-- stripe.CheckoutSession, as far as `onCheckoutCompleted` reads it.
pub record Session : Type 0 where
  pub is_subscription : Bool  -- Mode == subscription
  pub org : Option ℕ  -- metadata org_id, if it parses
  pub plan : Plan  -- metadata plan
  pub user : Option ℕ  -- metadata user_id, if it parses
  pub subscription_id : String
  pub customer_id : String

-- stripe.SubscriptionStatus by the cases of `onSubscriptionUpdated`.
pub data StripeStatus : Type 0 where
  active_or_trialing past_due ended other : StripeStatus

-- stripe.Subscription, as far as the handlers read it.
pub record StripeSubscription : Type 0 where
  pub id : String
  pub status : StripeStatus
  pub plan : Plan
  pub period_end : Option ℕ
  pub cancel_at_period_end : Bool

pub data BillingEvent : Type 0 where
  checkout_completed : Option Session → BillingEvent
  invoice_paid invoice_failed : Option String → BillingEvent
  subscription_updated subscription_deleted : Option StripeSubscription → BillingEvent
  unrelated : BillingEvent

-- `emitBilling` drops the error of the emitter.
unfoldable pub emit_billing : Env → ℕ → Option ℕ → String → ℕ → Tx Db DbError (Unit {0})
emit_billing env org actor action id = do
  let e : Entry = record {
    org_id = some org;
    actor_id = actor;
    action = action;
    object_type = "subscription";
    object_id = some id;
  }
  let written = env.audited && not (env.fault (emit action))
  modify (λ db. record db { audits = if written then db.audits ++ e ∷ [] else db.audits })

-- What a retrieved subscription writes over a row.
abbrev pub synced : Option SubInfo → OrgSubscription → OrgSubscription
synced none s = s
synced (some i) s = record s {
  current_period_end = i.current_period_end;
  cancel_at_period_end = i.cancel_at_period_end;
}

abbrev pub activated : Env → Session → ℕ → OrgSubscription
activated env sess org =
    synced (if is_empty sess.subscription_id then none else env.billing_info sess.subscription_id)
      (record {
        id = env.new_id;
        org_id = org;
        plan = sess.plan;
        status = SubStatus.active;
        stripe_customer_id = sess.customer_id;
        stripe_subscription_id = sess.subscription_id;
        current_period_end = none;
        cancel_at_period_end = false;
        grace_until = none;
      })

abbrev pub activate_for : Env → Session → Option ℕ → Tx Db DbError Bool
activate_for env sess none = pure true
activate_for env sess (some org) =
    if is_paid sess.plan
    then (do
      id ← upsert env (activated env sess org)
      emit_billing env org sess.user "subscription.started" id
      pure true)
    else pure true

abbrev pub on_session : Env → Option Session → Tx Db DbError Bool
on_session env none = pure true
on_session env (some sess) =
    if sess.is_subscription then activate_for env sess sess.org else pure false

-- `onCheckoutCompleted`: whether the event was billing's.
unfoldable pub on_checkout_completed : Env → Option Session → Tx Db DbError Bool
unfolding upsert emit_billing
on_checkout_completed env event = on_session env event

-- A write to the row of a subscription; an unknown one is acknowledged.
abbrev pub change_row :
    Env
    → Option OrgSubscription
    → (OrgSubscription → OrgSubscription)
    → String
    → Tx Db DbError (Unit {0})
change_row env none f action = pure tt
change_row env (some s) f action = do save env (f s); emit_billing env s.org_id none action s.id

abbrev pub change :
    Env → String → (OrgSubscription → OrgSubscription) → String → Tx Db DbError (Unit {0})
change env id f action = do row ← get_by_subscription_id env id; change_row env row f action

abbrev pub of_invoice :
    Env
    → Option String
    → (String → OrgSubscription → OrgSubscription)
    → String
    → Tx Db DbError (Unit {0})
of_invoice env none f action = pure tt
of_invoice env (some id) f action = if is_empty id then pure tt else change env id (f id) action

abbrev pub renewed : Env → String → OrgSubscription → OrgSubscription
renewed env id s =
    synced (env.billing_info id) (record s { status = SubStatus.active; grace_until = none })

-- `onInvoicePaid`
unfoldable pub on_invoice_paid : Env → Option String → Tx Db DbError (Unit {0})
unfolding get_by_subscription_id save emit_billing
on_invoice_paid env invoice = of_invoice env invoice (renewed env) "subscription.renewed"

-- The first failure stamps the grace window, and a repeated one leaves it.
abbrev pub parked : Env → OrgSubscription → OrgSubscription
parked env s = record s {
  status = SubStatus.past_due;
  grace_until =
      if is_past_due s.status then s.grace_until else some (env.now + past_due_grace_days * day);
}

-- `onInvoiceFailed`
unfoldable pub on_invoice_failed : Env → Option String → Tx Db DbError (Unit {0})
unfolding get_by_subscription_id save emit_billing
on_invoice_failed env invoice = of_invoice env invoice (λ _ s. parked env s) "subscription.past_due"

abbrev pub with_status : Env → StripeStatus → OrgSubscription → OrgSubscription
with_status env active_or_trialing s = record s { status = SubStatus.active; grace_until = none }
with_status env StripeStatus.past_due s = parked env s
with_status env ended s = record s { status = canceled; grace_until = none }
with_status env other s = s

abbrev pub updated : Env → StripeSubscription → OrgSubscription → OrgSubscription
updated env sub s =
    let t = with_status env sub.status s in
    record t {
      plan = if is_paid sub.plan then sub.plan else t.plan;
      current_period_end = if is_some sub.period_end then sub.period_end else t.current_period_end;
      cancel_at_period_end = sub.cancel_at_period_end;
    }

abbrev pub of_subscription :
    Env
    → Option StripeSubscription
    → (StripeSubscription → OrgSubscription → OrgSubscription)
    → String
    → Tx Db DbError (Unit {0})
of_subscription env none f action = pure tt
of_subscription env (some sub) f action = change env sub.id (f sub) action

-- `onSubscriptionUpdated`
unfoldable pub on_subscription_updated : Env → Option StripeSubscription → Tx Db DbError (Unit {0})
unfolding get_by_subscription_id save emit_billing
on_subscription_updated env event = of_subscription env event (updated env) "subscription.updated"

-- `onSubscriptionDeleted`
unfoldable pub on_subscription_deleted : Env → Option StripeSubscription → Tx Db DbError (Unit {0})
unfolding get_by_subscription_id save emit_billing
on_subscription_deleted env event =
    of_subscription env event (λ _ s. record s { status = canceled; grace_until = none })
      "subscription.canceled"

-- `HandleBillingEvent`: whether the event belonged to billing.
unfoldable pub handle_billing_event : Env → BillingEvent → Tx Db DbError Bool
unfolding on_checkout_completed on_invoice_paid on_invoice_failed on_subscription_updated
    on_subscription_deleted
handle_billing_event env (checkout_completed e) = on_checkout_completed env e
handle_billing_event env (invoice_paid e) = do on_invoice_paid env e; pure true
handle_billing_event env (invoice_failed e) = do on_invoice_failed env e; pure true
handle_billing_event env (subscription_updated e) = do on_subscription_updated env e; pure true
handle_billing_event env (subscription_deleted e) = do on_subscription_deleted env e; pure true
handle_billing_event env unrelated = pure false
