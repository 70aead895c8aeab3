-- ===== src/Relay/Tests/Limits.antt =====
-- Examples for lib/rateLimit.ts and the issuer keys of lib/credentialStore.ts.
use inzo.Prelude.{◌≡◌, List, [], ◌∷◌, none, filter, length, leb, arith}
use inzo.Relay.RateLimit.{fresh_limiter, is_limited, in_window}
use inzo.Relay.RateLimit.Window.{Call, failed, cleared, after_calls, counted, is_limited-counts}
use inzo.Relay.CredentialStore.Keys.{KeyRow, KeyRing}
use inzo.Relay.CredentialStore.Keys.Rotation.{Step, rotated, pruned}
use inzo.Relay.Tests.{demo, key}

abbrev calls : List Call
calls =
    failed "1.2.3.4" 1000 ∷ failed "5.6.7.8" 2000 ∷ cleared "5.6.7.8" ∷ failed "1.2.3.4" 3000 ∷ []

is_limited-counts_example :
    (is_limited (after_calls (fresh_limiter 2 600000) calls) "1.2.3.4" 4000).1
    ≡ leb 2 (length (filter (in_window 600000 4000) (counted "1.2.3.4" [] calls)))
is_limited-counts_example =
    is_limited-counts 2 600000 4000 "1.2.3.4" calls (omega arith, (omega arith, (omega arith, tt)))

abbrev first_row : KeyRow demo
first_row = record { key = key; public_key = "sk"; created_at = 0; retired_at = none }

abbrev ring : KeyRing demo
ring = record { rows = first_row ∷ []; active = key; verification_keys = ("k1", "sk") ∷ [] }

abbrev steps : List (Step demo)
steps = rotated (record { kid = "k2"; private_key = "sk2" }) 5000 ∷ pruned 6000 ∷ []
