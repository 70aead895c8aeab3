-- ===== src/Cloud.antt =====
-- packages/relay-cf/src: the relay on Cloudflare, one object for each pairing and one registry.
pub mod Room
pub mod Registry
mod Tests
