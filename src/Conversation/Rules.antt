-- ===== src/Conversation/Rules.antt =====
-- The regular expressions of src/conversation, put in place of the parameter `TextRules` of the
-- engine.
pub mod Commands
pub mod Laws
pub mod Source
pub mod Guardrails
pub mod BuyingSignals
pub mod Answers
pub mod Choice
pub mod Output
