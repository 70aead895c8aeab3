-- ===== src/Relay/CredentialStore/Keys.antt =====
-- The issuer keys of packages/relay/src/lib/credentialStore.ts: `loadVerificationKeys`,
-- `rotateIssuerKey` and `pruneRetiredKeys`. The key that `generateIssuerKey` makes is an argument,
-- and a stored JWK is the public key that `fromJwk` makes of it.
pub mod Rotation
use inzo.Prelude.{
  ℕ, ◌-◌, ◌*◌, String, Bool, true, false, not, ◌&&◌, List, [], ◌∷◌, ◌++◌, map, Option, none, some,
  filter, length, eqb, ltb, is_none, ◌==◌, if◌then◌else◌,
}
use inzo.Relay.Credential.Interface.{IssuerKey, Crypto, max_ttl_seconds}

module _ (c : Crypto) where
  open c use {PrivateKey, PublicKey}

  pub record KeyRow : Type 0 where
    pub key : IssuerKey PrivateKey
    pub public_key : PublicKey
    pub created_at : ℕ
    pub retired_at : Option ℕ

  pub record KeyRing : Type 0 where
    pub rows : List KeyRow
    pub active : IssuerKey PrivateKey
    pub verification_keys : List (String × PublicKey)

  abbrev pub load_verification_keys : List KeyRow → List (String × PublicKey)
  load_verification_keys = map (λ row. (row.key.kid, row.public_key))

  abbrev pub retire_row : String → ℕ → KeyRow → KeyRow
  retire_row kid now row =
      if row.key.kid == kid && is_none row.retired_at
      then record row { retired_at = some now }
      else row

  abbrev pub new_row : IssuerKey PrivateKey → ℕ → KeyRow
  new_row next now = record {
    key = next;
    public_key = c.public_of next.private_key;
    created_at = now;
    retired_at = none;
  }

  unfoldable pub rotate_issuer_key : KeyRing → IssuerKey PrivateKey → (now : ℕ) → KeyRing
  rotate_issuer_key k next now =
      let rows = map (retire_row k.active.kid now) k.rows ++ new_row next now ∷ [] in
      record { rows = rows; active = next; verification_keys = load_verification_keys rows }

  -- `retired_at IS NOT NULL AND retired_at < ?`
  abbrev pub retired_before : ℕ → KeyRow → Bool
  retired_before cutoff row = elim row.retired_at [ none ↦ false | some at ↦ ltb at cutoff ]

  -- The second part is the number of rows removed.
  unfoldable pub prune_retired_keys : KeyRing → (now : ℕ) → KeyRing × ℕ
  prune_retired_keys k now =
      let cutoff = now - max_ttl_seconds * 1000 in
      let rows = filter (λ row. not (retired_before cutoff row)) k.rows in
      let removed = length (filter (retired_before cutoff) k.rows) in
      (
        record k {
          rows = rows;
          verification_keys =
              if eqb removed 0 then k.verification_keys else load_verification_keys rows;
        },
        removed,
      )
