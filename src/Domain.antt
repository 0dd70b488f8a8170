-- ===== src/Domain.antt =====
-- The rows of prisma/schema.prisma that the conversation reads and writes, and the extraction of
-- src/llm/extraction.schema.ts. Instants are milliseconds; prices are hundredths of the currency.
pub mod Property
pub mod Lead
pub mod Extraction
