-- ===== src/Tests.antt =====
-- The theorems at concrete inputs, with concrete parameters.
pub mod Samples
mod Scoring
mod Report
mod Session
mod Auth
mod Content
mod Server
mod Router
mod Phash
mod Blocks
mod Dockershim
mod Creation
mod Terminal
mod Render
mod Markdown
mod Lessons
