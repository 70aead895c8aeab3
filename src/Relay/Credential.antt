-- ===== src/Relay/Credential.antt =====
-- packages/relay/src/lib/credential.ts: signed, attenuable, holder-bound credentials, and the proof
-- of possession. Times are natural numbers, milliseconds since 1970 as `Date.now` gives them.
pub mod Interface
pub mod Issue
pub mod Verify
pub mod Proof
