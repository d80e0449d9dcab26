-- ===== src/Data.antt =====
-- src/data.rs: the data that the crate exchanges with NimBLE and with the application.
pub mod Uuid
pub mod Address
pub mod Advertisement
