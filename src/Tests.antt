-- ===== src/Tests.antt =====
-- Concrete inputs, and the theorems at them.
pub mod Panel
pub mod Deliveries
pub mod People
pub mod Extraction
pub mod Auth
pub mod Admin
pub mod Pipeline
pub mod Rules
pub mod Data
pub mod Leads
pub mod Components
pub mod Search
pub mod Dialogue
