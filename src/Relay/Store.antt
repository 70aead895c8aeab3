-- ===== src/Relay/Store.antt =====
-- packages/relay/src/lib/store.ts: `RelayStore`. A table is the list of its rows in the order of
-- insertion, a time a number of milliseconds; random ids, tokens and codes are arguments. The parts
-- of an operation that its result to the caller only repeats are left out of the result.
pub mod State
pub mod Codes
pub mod Joining
pub mod Members
pub mod Revocation
pub mod Messages
pub mod Plans
pub mod Pairing
