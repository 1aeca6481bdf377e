-- ===== src/Guards.antt =====
-- What stands between a request and its handler.
pub mod Csrf
pub mod Cron
pub mod Cors
