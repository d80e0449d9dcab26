-- ===== src/Build.antt =====
-- build.rs: the configuration of NimBLE, the patches of its sources and the tree they are made in.
pub mod Text
pub mod Table
pub mod Config
pub mod Load
pub mod Main
pub mod Header
pub mod Patch
pub mod Source
mod Tests
