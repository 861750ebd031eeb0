-- ===== src/Billing.antt =====
-- app/billing: plans, payment intents, their settlement and what a payment grants.
pub mod Plans
pub mod Fulfillment
pub mod CheckCache
pub mod Quota
pub mod Probe
pub mod Settle
pub mod Polls
pub mod Checkout
