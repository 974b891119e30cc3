-- ===== src/Subscription.antt =====
-- The subscription domain (internal/subscription): entitlements of an organization, and the billing
-- row that Stripe's webhook events drive.
pub mod Entitlements
pub mod Webhook
pub mod Grace
pub mod Failures
