-- ===== src/Server.antt =====
-- internal/server: the receiving side.
pub mod Filename
pub mod Numbered
pub mod Storage
pub mod Extract
pub mod SaveDir
pub mod Stale
pub mod Inflight
pub mod Requests
pub mod Uploads
pub mod Terminal
pub mod Messages
pub mod Local
pub mod Handler
