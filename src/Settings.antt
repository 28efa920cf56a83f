-- ===== src/Settings.antt =====
-- src/settings/settings.c: the parser of config.ini and what it writes.
pub mod Types
pub mod Commit
pub mod Parser
pub mod Save
pub mod Buffer
pub mod Address
pub mod Load
pub mod Port
pub mod Text
pub mod RoundTrip
mod Tests
