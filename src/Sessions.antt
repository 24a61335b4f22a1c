-- ===== src/Sessions.antt =====
-- modules/sessions/sessions.service.ts and modules/redis/session-cache.service.ts: the life of a
-- session, in the table of sessions and in the cache.
pub mod Cache
pub mod Activity
pub mod Service
pub mod Revocation
pub mod Laws
pub mod Ended
pub mod Kept
pub mod Sample
mod Tests
