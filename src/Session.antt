-- ===== src/Session.antt =====
-- `ManagedRealtimeSession` of realtime/session.py.
pub mod State
pub mod Queue
pub mod Terminal
pub mod Flow
pub mod Rules
pub mod Batch
pub mod Apply
pub mod Requests
pub mod Tools
pub mod Context
pub mod Receive
pub mod Conversation
pub mod Accounting
pub mod Ending
