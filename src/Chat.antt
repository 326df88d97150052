-- ===== src/Chat.antt =====
-- `ChatController` of chat_controller.py: the one active run of an interactive chat.
pub mod State
pub mod Reconcile
pub mod Actions
pub mod Input
pub mod Observe
pub mod Invariant
pub mod Owners
pub mod Served
pub mod Runs
