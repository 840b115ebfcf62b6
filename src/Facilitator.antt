-- ===== src/Facilitator.antt =====
-- facilitator: a local stand-in for an x402 facilitator, which checks and settles payments.
pub mod Verify
pub mod Ledger
pub mod Request
pub mod Handler
pub mod Server
