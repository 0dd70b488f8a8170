-- ===== src/Auth.antt =====
-- src/auth: how people of an agency log in, how an agency manages them, and the guards of the routes.
pub mod Guards
pub mod People
pub mod Login
pub mod Window
