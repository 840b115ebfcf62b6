-- ===== src/Gateway.antt =====
-- gateway: the edge in front of search and merchant, which refuses forged and expired assertions.
pub mod Body
pub mod KeyCache
pub mod Answer
pub mod Handler
pub mod Server
