-- ===== src/Conversation.antt =====
-- src/conversation: the dialogue's state machine, its filters, score, guardrails and handlers.
pub mod Variants
pub mod Rules
pub mod Types
pub mod Filters
pub mod Score
pub mod Release
pub mod Guardrails
pub mod World
pub mod SafeReply
pub mod Handlers
pub mod Engine
