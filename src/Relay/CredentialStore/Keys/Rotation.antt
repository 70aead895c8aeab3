-- ===== src/Relay/CredentialStore/Keys/Rotation.antt =====
-- No rotation and no pruning of issuer keys ends a credential early.
use inzo.Prelude.{ℕ, ◌≤◌, ◌≡◌, String, Bool, true, List, [], ◌∷◌, none, some, find?, leb, ◌==◌}
use inzo.Relay.Credential.Interface.{IssuerKey, Crypto}
use inzo.Relay.CredentialStore.Keys.{
  KeyRow, KeyRing, load_verification_keys, rotate_issuer_key, prune_retired_keys,
}

module _ (c : Crypto) where
  open c use {PrivateKey, PublicKey}

  -- The map that verification reads holds every row.
  abbrev pub IsLoaded : KeyRing c → Type 0
  IsLoaded k = k.verification_keys ≡ load_verification_keys c k.rows

  -- A key that was in use at a time.
  abbrev pub in_use : ℕ → KeyRow c → Bool
  in_use at row = elim row.retired_at [ none ↦ true | some retired ↦ leb at retired ]

  pub data Step : Type 0 where
    rotated : (next : IssuerKey PrivateKey) (now : ℕ) → Step
    pruned : (now : ℕ) → Step

  abbrev pub after_step : KeyRing c → Step → KeyRing c
  after_step k (rotated next now) = rotate_issuer_key c k next now
  after_step k (pruned now) = (prune_retired_keys c k now).0

  abbrev pub after_steps : KeyRing c → List Step → KeyRing c
  after_steps k [] = k
  after_steps k (step ∷ steps) = after_steps (after_step k step) steps

  abbrev pub Within : ℕ → ℕ → List Step → Type 0
  Within first last [] = Unit {0}
  Within first last (rotated next now ∷ steps) =
      (first ≤ now) × (now ≤ last) × Within first last steps
  Within first last (pruned now ∷ steps) = (first ≤ now) × (now ≤ last) × Within first last steps

  -- The ring holds a key that was in use at a time.
  record Holds (k : KeyRing c) (kid : String) (key : PublicKey) (at : ℕ) : Type 0 where
    loaded : IsLoaded k
    row : KeyRow c
    found : find? (λ r. r.key.kid == kid) k.rows ≡ some row
    same : row.public_key ≡ key
    used : in_use at row ≡ true
