-- ===== src/System.antt =====
-- The services together: the agent's requests through the gateway's server to the merchant's.
pub mod Network
pub mod Exchange
pub mod Challenge
pub mod Completion
pub mod Attack
