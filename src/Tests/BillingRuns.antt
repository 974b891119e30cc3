-- ===== src/Tests/BillingRuns.antt =====
-- The subscription of the shop's organization, and a rate limit.
use rallya.Common.{◌≡◌, ◌↔◌, refl, true, some, [], ◌∷◌, find, arith}
use rallya.Model.Subscription.{OrgSubscription, pro}
use rallya.Subscription.Entitlements.{entitlement, has_org}
use rallya.Subscription.Webhook.{on_invoice_failed}
use rallya.Subscription.Grace.{is_granting, is_served, entitlement_iff}
use rallya.Subscription.Failures.{on_invoice_failed_again}
use rallya.Ratelimit.Budget.{allowed_count, min, allowed_count-fresh}
use rallya.Ratelimit.Window.{lookup}
use rallya.Tests.World.{world, shop, after}

entitlement_iff_example : ((entitlement (world 1000 50) 9 shop).plan ≡ pro) ↔ (
    (is_served (world 1000 50) ≡ true)
    × ((s : OrgSubscription) × (find (has_org 9) shop.subscriptions ≡ some s)
        × (s.plan ≡ pro)
        × (is_granting 1000 s ≡ true)))
entitlement_iff_example = entitlement_iff (world 1000 50) 9 shop pro refl

on_invoice_failed_again_example :
    (after (
      on_invoice_failed
        (world 2000 51)
        (some "sub")
        (after (on_invoice_failed (world 1000 50) (some "sub") shop)))).subscriptions
    ≡ (after (on_invoice_failed (world 1000 50) (some "sub") shop)).subscriptions
unfolding on_invoice_failed
on_invoice_failed_again_example =
    on_invoice_failed_again (world 1000 50) (world 2000 51) "sub" shop (tt, tt) refl refl refl

-- Four requests in one window of 60 with a budget of three.
allowed_count-fresh_example : allowed_count "ip" 3 60 (10 ∷ 20 ∷ 30 ∷ 69 ∷ []) [] ≡ min 4 3
unfolding lookup
allowed_count-fresh_example =
    allowed_count-fresh "ip" 3 60 10 (20 ∷ 30 ∷ 69 ∷ []) [] refl
      (omega arith, (omega arith, (omega arith, tt)))
