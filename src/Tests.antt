-- ===== src/Tests.antt =====
-- Test data, and the theorems applied to it.
pub mod Wire
pub mod Buffers
pub mod Identities
pub mod Sessions
pub mod Chats
pub mod Calls
pub mod Recoveries
pub mod Contexts
