-- ===== src/Gateway.antt =====
-- apps/gateway/src: the health of the nodes as the gateway sees it, and the routing of requests to them.
pub mod Health
pub mod Forward
mod Tests
