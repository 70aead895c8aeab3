-- ===== src/Relay/Consent/Satisfied.antt =====
-- The flag `satisfied`, and how each operation moves it.
use inzo.Prelude.{
  ℕ, ◌≡◌, ◌≢◌, refl, ◌↔◌, String, true, false, not, ◌&&◌, List, [], ◌∷◌, arith, includes,
  all-includes, all-includes_of, Distinct, ◌==◌, Bool-cases, inl, inr,
}
use inzo.Relay.Consent.{
  Approval, ConsentRecord, principals, is_satisfied, withdraw, without_principal,
  without_credentials,
}

-- Consent is satisfied exactly when somebody is required, and everybody who is has approved.
pub is_satisfied_iff :
    (required : List String) (approvals : List Approval)
    → (is_satisfied required approvals ≡ true) ↔ (
        (required ≢ [])
        × ((p : String) → includes required p ≡ true → includes (principals approvals) p ≡ true))
unfolding is_satisfied
is_satisfied_iff [] approvals = (λ h. cc, λ h. absurd (h.0 refl))
is_satisfied_iff (r ∷ rs) approvals = (
  λ h. (λ e. cc, λ p m. all-includes (principals approvals) (r ∷ rs) p h m),
  λ h. all-includes_of (principals approvals) (r ∷ rs) h.1,
)

pub includes-without_principal :
    (p q : String) (given : List Approval)
    → includes (principals (without_principal p given)) q
      ≡ (includes (principals given) q && not (p == q))
includes-without_principal p q [] = refl
includes-without_principal p q (a ∷ given) = ground (arith, includes-without_principal p q given)

pub includes-without_credentials :
    (dead : List String) (q : String) (given : List Approval)
    → includes (principals (without_credentials dead given)) q ≡ true
    → includes (principals given) q ≡ true
includes-without_credentials dead q [] h = cc
includes-without_credentials dead q (a ∷ given) h =
    ground (arith, includes-without_credentials dead q given)

-- A party that withdraws leaves the consent unsatisfied, if its approval is required, whatever the
-- others have done.
pub withdraw-unsatisfied :
    (r : ConsentRecord) (principal : String) (now : ℕ)
    → includes r.required principal ≡ true
    → (withdraw r principal now).satisfied ≡ false
unfolding withdraw
withdraw-unsatisfied r principal now m =
    let left = without_principal principal r.approvals in
    elim (Bool-cases (is_satisfied r.required left)) [
      | inl e ↦
          let held = ((is_satisfied_iff r.required left).0 e).1 principal m in
          absurd (ground (arith, includes-without_principal principal principal r.approvals))
      | inr e ↦ e
    ]

pub Distinct-without_principal :
    (p : String) (given : List Approval)
    → Distinct (principals given)
    → Distinct (principals (without_principal p given))
Distinct-without_principal p [] d = tt
Distinct-without_principal p (a ∷ given) (fresh, d) =
    ground
      (arith, Distinct-without_principal p given d, includes-without_principal p a.principal given)

pub Distinct-without_credentials :
    (dead : List String) (given : List Approval)
    → Distinct (principals given)
    → Distinct (principals (without_credentials dead given))
Distinct-without_credentials dead [] d = tt
Distinct-without_credentials dead (a ∷ given) (fresh, d) = ground (
  arith,
  Distinct-without_credentials dead given d,
  includes-without_credentials dead a.principal given,
)
