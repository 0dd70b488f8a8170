-- ===== src/Conversation/Handlers.antt =====
-- src/conversation/handlers: one module for each state's handler.
pub mod Scheduling
pub mod Qualification
pub mod Commercial
pub mod SearchMatch
pub mod Greeting
