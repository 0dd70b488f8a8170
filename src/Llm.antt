-- ===== src/Llm.antt =====
-- src/llm: what is taken from the language model's answer.
pub mod Sanitize
