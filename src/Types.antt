-- ===== src/Types.antt =====
-- packages/types: what every service shares.
pub mod Commission
pub mod Eip3009
pub mod Assertion
