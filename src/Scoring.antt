-- ===== src/Scoring.antt =====
-- internal/scoring: challenges, their grading, the log of solves and the API over them.
pub mod Challenge
pub mod Journal
pub mod Store
pub mod Report
pub mod Http
pub mod Hash
pub mod Phash
