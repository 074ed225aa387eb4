-- ===== src/Dockershim.antt =====
-- internal/dockershim: the Docker Engine API that is answered with Pods.
pub mod Names
pub mod Frames
pub mod Shim
pub mod Wire
pub mod Server
