-- ===== src/Api.antt =====
-- internal/apiserver: who may call the API, and the stream of events.
pub mod Guard
pub mod Replies
pub mod Resources
pub mod Stream
