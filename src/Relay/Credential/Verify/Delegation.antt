-- ===== src/Relay/Credential/Verify/Delegation.antt =====
-- Chains of attenuation, and what revoking one credential does to all that were made from it.
use inzo.Prelude.{
  ℕ, max, ◌+◌, ◌*◌, Bool-cases, inl, inr, leb, leb→le, ◌≤◌, ◌≡◌, refl, ◌∙◌, ap, String, true, [],
  ◌∷◌, ◌++◌, Option, ok, arith, includes, includes-append, length, length-append,
}
use inzo.Prelude.Int.{ℤ}
use inzo.Prelude.Json.{Json}
use inzo.Relay.Credential.Interface.{Jwk, CredentialPayload, IssuerKey, Crypto, max_depth, ticks}
use inzo.Relay.Credential.Issue.{Issued, seconds, attenuate}
use inzo.Relay.Credential.Issue.Attenuation.{IsChild, attenuate-IsChild}

ends_by :
    (parent child : CredentialPayload) (now last root_end : ℕ)
    → IsChild parent child now
    → parent.exp ≤ max root_end ((last + 1) * ticks)
    → child.exp ≤ max root_end ((max (seconds now) last + 1) * ticks)
ends_by parent child now last root_end is up =
    elim (Bool-cases (leb ((seconds now + 1) * ticks) parent.exp)) [
      | inl e ↦ ground (arith, is.within_parent (leb→le _ _ e))
      | inr e ↦ ground (arith, is.ending_parent)
    ]

module _ (c : Crypto) where
  open c use {PrivateKey}

  -- `leaf` was made from `root` by calls of `attenuate`.
  pub data Delegates (root : CredentialPayload) : CredentialPayload → Type 0 where
    here : Delegates root root
    next :
        {parent : CredentialPayload}
        → Delegates root parent
        → (key : IssuerKey PrivateKey) (wanted : Json) (cnf : Jwk) (ttl_seconds : Option ℤ)
        → (now : ℕ) (jti : String) (issued : Issued)
        → attenuate c key parent wanted cnf ttl_seconds now jti ≡ ok issued
        → Delegates root issued.payload

  -- The second in which the last call was made, or the latest one if the clock ran back.
  abbrev pub last_made : {root leaf : CredentialPayload} → Delegates root leaf → ℕ
  last_made here = 0
  last_made (next d key wanted cnf ttl now jti issued h) = max (seconds now) (last_made d)

  -- What holds between the two ends of a chain.
  pub record Descends {root leaf : CredentialPayload} (d : Delegates root leaf) : Type 0 where
    pub same_principal : leaf.prn ≡ root.prn
    pub same_agent : leaf.sub ≡ root.sub
    pub narrower : (a : String) → includes leaf.cap a ≡ true → includes root.cap a ≡ true
    pub no_later : leaf.exp ≤ max root.exp ((last_made d + 1) * ticks)
    pub no_shallower : root.depth ≤ leaf.depth
    pub named : includes (leaf.chain ++ leaf.jti ∷ []) root.jti ≡ true
    pub depth_kept : root.depth ≡ length root.chain → leaf.depth ≡ length leaf.chain
    pub bounded : root.depth ≤ max_depth → leaf.depth ≤ max_depth

  -- However long the chain of attenuations, the last credential acts for the principal of the
  -- first, holds no capability that the first lacks, ends no later than the first or than a second
  -- after the last attenuation, and names the first in its chain or is the first; its depth keeps to
  -- the length of the chain and to `MAX_DEPTH`. The credentials on the way may have expired.
  pub Delegates-Descends : {root leaf : CredentialPayload} (d : Delegates root leaf) → Descends d
  Delegates-Descends {root} here = record {
    same_principal = refl;
    same_agent = refl;
    narrower = λ a m. m;
    no_later = omega arith;
    no_shallower = omega arith;
    named = ground (arith, includes-append root.chain (root.jti ∷ []) root.jti);
    depth_kept = λ h. h;
    bounded = λ h. h;
  }
  Delegates-Descends {root} (next {parent = parent} d key wanted cnf ttl now jti issued h) =
      let up : Descends d = Delegates-Descends d in
      let child : IsChild parent issued.payload now =
        attenuate-IsChild c key parent wanted cnf ttl now jti issued h in
      record {
        same_principal = child.same_principal ∙ up.same_principal;
        same_agent = child.same_agent ∙ up.same_agent;
        narrower = λ a m. up.narrower a (child.narrower a m);
        no_later = ends_by parent issued.payload now _ _ child up.no_later;
        no_shallower = omega arith;
        named =
            rw child.longer_chain
              (includes-append _ (issued.payload.jti ∷ []) root.jti ∙ rw up.named refl);
        depth_kept = λ e. omega (
          arith,
          up.depth_kept e,
          ap length child.longer_chain,
          length-append parent.chain (parent.jti ∷ []),
        );
        bounded = λ b. child.bounded;
      }
