-- ===== src/Terminal.antt =====
-- internal/terminal: the browser's terminal on a Pod.
pub mod Stream
