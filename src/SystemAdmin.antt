-- ===== src/SystemAdmin.antt =====
-- apps/system_admin/: what an administrator does to tickets, events, categories, locations and
-- users.
pub mod Audit
pub mod Tickets
pub mod Moderation
pub mod Categories
pub mod Locations
pub mod Accounts
