-- ===== src/Properties.antt =====
-- src/properties: the inventory, its search and the zones.
pub mod Neighborhoods
pub mod Levenshtein
pub mod Table
pub mod Search
pub mod Zones
