-- ===== src/Eviction.antt =====
-- packages/eviction/src: the eviction policies, and the engine that switches between them.
pub mod Lru
pub mod Sketch
pub mod Lfu
pub mod TinyLfu
pub mod Monitor
pub mod Rules
pub mod Policy
pub mod Adaptive
pub mod Tests
