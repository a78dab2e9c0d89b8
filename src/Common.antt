-- ===== src/Common.antt =====
-- common/: what the apps share.
pub mod Errors
pub mod Host
pub mod Slugs
pub mod Cache
pub mod Otp
