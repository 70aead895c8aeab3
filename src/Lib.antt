-- ===== src/Lib.antt =====
-- Verification of the relay of inzo, the server through which the agents of several people pair,
-- exchange messages, agree on a plan and prove that each person approved it: the Node relay
-- (packages/relay/src), the two objects of the Cloudflare relay (packages/relay-cf/src) and the
-- stream parser of the command line client (packages/cli/src).
--
-- Parts and files. `RelayStore` (lib/store.ts) owns the conversation: pairing codes, tokens,
-- members, messages and plans. It calls `CredentialStore` (lib/credentialStore.ts), which owns
-- authority: credentials (lib/credential.ts), consent records (lib/consent.ts) and the audit log
-- (lib/audit.ts). Joins are guarded by `FailureLimiter` (lib/rateLimit.ts), and every request passes
-- `requireAuth` (lib/auth.ts), which asks both stores who the caller is. On Cloudflare one object
-- (registry.ts) owns authority and another (pairingRoom.ts) what belongs to one pairing. The client
-- reads the streams of both relays with `SseParser`.
--   Prelude             texts, lists over native numbers, results, integers, JSON values
--   Relay/Errors        lib/errors.ts: an error is its status and code
--   Relay/Scopes        lib/scopes.ts: `isScope`, `narrowedScope`
--   Relay/RateLimit     lib/rateLimit.ts: `isLimited`, `recordFailure`, `clear`
--   Relay/Credential    lib/credential.ts: Interface (data, constants), Issue (`issueCredential`,
--                       `attenuate`), Verify (`verifyCredential`), Proof (`verifyProof`,
--                       `ProofReplayGuard`)
--   Relay/Consent       lib/consent.ts, and what lib/credentialStore.ts does to a consent record
--   Relay/Audit         lib/audit.ts: `append`, `head`, `list`, `verify`, `prune`
--   Relay/CredentialStore  lib/credentialStore.ts; its child Keys has the issuer keys
--   Relay/Store         lib/store.ts: State (tables, reads), Codes, Pairing (`joinPairing`),
--                       Revocation (tokens, `narrowScope`, `revokeAgent`), Messages, Plans
--   Relay/Auth          lib/auth.ts: `requireAuth`, `requireScope`; Vouched (the evidence), Once
--   Relay/Runway        lib/runway.ts, over JavaScript's numbers as the parameter `Numbers`; Latest
--   Relay/Usage         budgets and usage reports of lib/store.ts; Reporting
--   Cloud/Room          packages/relay-cf/src/pairingRoom.ts: Thread, Plans, Approving, Progress
--                       (`updateItemStatus`), Usage, Log; Sound holds its invariant, Progress/Finishing
--                       that the work can be finished
--   Cloud/Registry      packages/relay-cf/src/registry.ts: Codes, Joining (`joinPairing`), Revoking
--   Cli/Sse             packages/cli/src/sse.ts: Frames (the loop), Chunks, Wire (the relays' frames)
--   Tests               examples of each part; their signature scheme can be computed
-- The other children of a part hold its theorems.
--
-- Correspondence. A table is the list of its rows in the order of insertion, and an operation takes
-- the store and gives the next store with a result; an error leaves what was written before it.
-- Function and field names are the source's in snake case. Times, random ids and generated codes
-- are arguments. `proposePlan` and `approvePlan` wait between their reads and their writes, so each
-- is a first half `…_begin` and a second half `…_commit` that other steps may come between. Ed25519,
-- SHA-256, base64url and JSON are parameters: the records `Crypto` and `Hashing`. Numbers are
-- natural; a time in seconds is the division of its milliseconds. The lifetime that a request asks for
-- may have a fraction, so lifetimes and the ends of credentials are whole numbers of ticks of 2^-22
-- seconds, to which JavaScript's numbers round a time of the present. `requireAuth` reads the clock
-- three times: the record `Clock`. The only loop with a bound in the
-- source, the five attempts at a new code, is recursion on the list of generated codes. The loop of
-- `SseParser.push` is recursion on fuel, the length of the buffer, since a turn takes a frame and two
-- line ends off it.
--
-- Not modelled: the digests, the HTTP routes (glue), the worker of packages/relay-cf, the other files
-- of packages/cli, and the packages mcp-server, holder and sandbox.
pub mod Cli
pub mod Cloud
pub mod Prelude
pub mod Relay
