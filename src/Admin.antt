-- ===== src/Admin.antt =====
-- src/admin: what the agency's people do in the panel.
pub mod Catalog
pub mod Leads
pub mod Csv
pub mod Import
pub mod Messaging
pub mod Appointments
