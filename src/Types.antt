-- ===== src/Types.antt =====
-- src/types/mod.rs and src/types/method.rs.
pub mod Method
pub mod Hash
pub mod Request
pub mod Structs
pub mod Message
pub mod Response
pub mod Notification
