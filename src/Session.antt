-- ===== src/Session.antt =====
-- internal/session/session.go: the session engine. The Kubernetes API is the interface `PodApi`.
pub mod Expiry
pub mod Api
pub mod Pods
pub mod Engine
