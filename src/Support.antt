-- ===== src/Support.antt =====
-- apps/support/ and apps/system_admin/services/support_services.py: the help desk.
pub mod Models
pub mod Tickets
pub mod Desk
pub mod Publishing
pub mod Conversations
