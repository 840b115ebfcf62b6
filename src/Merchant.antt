-- ===== src/Merchant.antt =====
-- merchant: answers a purchase with a payment challenge, and settles the payment that comes back.
pub mod X402
pub mod Config
pub mod Settlement
pub mod Answer
pub mod Handler
pub mod Catalog
pub mod Server
