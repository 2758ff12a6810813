-- ===== src/Node.antt =====
-- services/cache-node/src: the parts of a cache node.
pub mod Recovery
pub mod Server
pub mod Unlimited
pub mod Deliveries
pub mod Lost
pub mod Cleanup
pub mod Restart
pub mod Faults
pub mod Requests
mod Tests
