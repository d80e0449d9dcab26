-- ===== src/Discovery.antt =====
-- src/discovery.rs: discovery of services, characteristics and descriptors.
pub mod Callbacks
pub mod Enrich
mod Tests
