-- ===== src/Auth.antt =====
-- internal/auth: signed login cookies, anonymous learner names, and whose request it is.
pub mod Cookie
pub mod Learner
pub mod Manager
pub mod Login
