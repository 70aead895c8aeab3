-- ===== src/Relay.antt =====
-- packages/relay/src: the Node relay. One child for each file of its `lib` folder.
pub mod Errors
pub mod RateLimit
pub mod Scopes
pub mod Credential
pub mod Consent
pub mod Audit
pub mod CredentialStore
pub mod Store
pub mod Auth
pub mod Runway
pub mod Usage
pub mod Tests
