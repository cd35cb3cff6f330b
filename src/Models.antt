-- ===== src/Models.antt =====
-- The tables of backend/app/*/models.py, one record for each, and the database that holds them.
-- An identifier (a UUID) is a number, since the code only compares it; a point in time is its
-- number of microseconds in UTC, which is what `as_utc` of backend/app/common/time.py normalises.
mod Types
mod Accounts
mod Fleet
mod Automation
mod Dashboards
mod Database
pub use Types.*
pub use Accounts.*
pub use Fleet.*
pub use Automation.*
pub use Dashboards.*
pub use Database.*
