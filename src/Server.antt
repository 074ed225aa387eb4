-- ===== src/Server.antt =====
-- internal/server: where the scoring API, the session engine and the lesson pages meet.
pub mod PodFetch
pub mod Sessions
pub mod Creation
pub mod Hosts
pub mod BuiltSite
