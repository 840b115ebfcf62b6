-- ===== src/Simulator.antt =====
-- simulator/src: an agent that buys, and the attacks that it tries.
pub mod Agent
pub mod Fraud
pub mod Payment
pub mod Runner
pub mod Requests
pub mod Driver
