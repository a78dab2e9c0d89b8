-- ===== src/Notifications.antt =====
-- apps/notifications/: notifications, their recipients, and who wants to be disturbed when.
pub mod Models
pub mod Preference
pub mod Dispatch
pub mod Registered
pub mod Inbox
pub mod Delivery
