-- ===== src/Content.antt =====
-- internal/content: of the lesson site, the Markdown of a lesson, its terminals, the quiz and exercise
-- blocks that become challenges, the reference hashes of exercises, the rendering of a lesson and the
-- build of all, and the script of the exercise pages.
pub mod Blocks
pub mod Inline
pub mod Markdown
pub mod Terminals
pub mod Html
pub mod DemoLinks
pub mod FrontMatter
pub mod Found
pub mod Render
pub mod Reference
pub mod Build
pub mod Links
pub mod ExerciseVerify
