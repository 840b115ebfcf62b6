-- ===== src/Tests.antt =====
-- Concrete runs, and the theorems applied at concrete inputs.
mod Fixtures
mod Edge
mod Types
mod Facilitator
mod Service
mod Gateway
mod Merchant
mod Simulator
mod Payment
mod Runner
mod Network
mod System
mod Catalog
mod Attack
