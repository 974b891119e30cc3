-- ===== src/Model/Subscription.antt =====
-- internal/subscription/model/subscription.go: plans, limits and the billing row of an organization.
use rallya.Common.{ℕ, String, Bool, true, false, Option}
use rallya.Common.Int.{ℤ, pos, negsuc}

-- `unknown` is any other text in the column.
pub data Plan : Type 0 where
  free pro scale unknown : Plan

-- `Plan.Valid`
abbrev pub is_valid : Plan → Bool
is_valid unknown = false
is_valid _ = true

-- `Plan.Paid`
abbrev pub is_paid : Plan → Bool
is_paid pro = true
is_paid scale = true
is_paid _ = false

pub data SubStatus : Type 0 where
  active past_due canceled : SubStatus

abbrev pub is_past_due : SubStatus → Bool
is_past_due past_due = true
is_past_due _ = false

pub data Feature : Type 0 where
  custom_roles api_keys kits : Feature

-- Only the kit quota uses -1, which means unlimited.
pub record Limits : Type 0 where
  pub max_events : ℕ
  pub max_members : ℕ
  pub max_attendees_per_event : ℕ
  pub max_kits_per_event : ℤ

-- `TierLimits`; the map gives the zero value for an unknown plan.
unfoldable pub tier_limits : Plan → Limits
tier_limits free = record {
  max_events = 3;
  max_members = 5;
  max_attendees_per_event = 200;
  max_kits_per_event = pos 0;
}
tier_limits pro = record {
  max_events = 25;
  max_members = 25;
  max_attendees_per_event = 2000;
  max_kits_per_event = pos 10;
}
tier_limits scale = record {
  max_events = 200;
  max_members = 200;
  max_attendees_per_event = 20000;
  max_kits_per_event = negsuc 0;
}
tier_limits unknown = record {
  max_events = 0;
  max_members = 0;
  max_attendees_per_event = 0;
  max_kits_per_event = pos 0;
}

-- `TierFeatures`
unfoldable pub tier_features : Plan → Feature → Bool
tier_features free _ = false
tier_features pro _ = true
tier_features scale _ = true
tier_features unknown _ = false

pub record Entitlement : Type 0 where
  pub plan : Plan
  pub limits : Limits
  pub features : Feature → Bool

-- `FreeEntitlement`
unfoldable pub free_entitlement : Entitlement
unfolding tier_limits
free_entitlement = record { plan = free; limits = tier_limits free; features = λ f. false }

-- `EntitlementForPlan`
unfoldable pub entitlement_for_plan : Plan → Entitlement
unfolding tier_limits tier_features free_entitlement
entitlement_for_plan unknown = free_entitlement
entitlement_for_plan free = record {
  plan = free;
  limits = tier_limits free;
  features = tier_features free;
}
entitlement_for_plan pro = record {
  plan = pro;
  limits = tier_limits pro;
  features = tier_features pro;
}
entitlement_for_plan scale = record {
  plan = scale;
  limits = tier_limits scale;
  features = tier_features scale;
}

-- `OrgSubscription`; org_id is unique.
pub record OrgSubscription : Type 0 where
  pub id : ℕ
  pub org_id : ℕ
  pub plan : Plan
  pub status : SubStatus
  pub stripe_customer_id : String
  pub stripe_subscription_id : String
  pub current_period_end : Option ℕ
  pub cancel_at_period_end : Bool
  pub grace_until : Option ℕ

-- subscription_service.go, `SubInfo`, as far as the webhooks read it.
pub record SubInfo : Type 0 where
  pub current_period_end : Option ℕ
  pub cancel_at_period_end : Bool
