-- ===== src/Relay/Consent/Invariant.antt =====
-- What every consent record in the store satisfies, whatever happens to it.
use inzo.Prelude.{
  ℕ, ◌≡◌, refl, String, true, ◌||◌, List, [], ◌∷◌, ◌++◌, some, ok, arith, includes, includes-append,
  Distinct, Distinct-append_one, guard-eq-ok, or_throw-eq-ok, ok-injective, Bool-cases, inl, inr,
  sym, ap, ◌∙◌, and_left, eqb, length,
}
use inzo.Relay.Credential.Interface.{Crypto}
use inzo.Relay.Consent.{
  Approval, ConsentRecord, ConsentSubject, ApproveInput, principals, is_satisfied, with_approvals,
  open_consent, withdraw, pop, is_pop, signature_text, verify_approval_signature,
  withdraw_by_credentials, without_principal, without_credentials, approve,
}
use inzo.Relay.Consent.Satisfied.{
  includes-without_principal, includes-without_credentials, Distinct-without_principal,
  Distinct-without_credentials,
}

-- A record as the store keeps it: the flag is what the approvals say, only required parties have
-- approved, and none of them twice.
pub record IsConsistent (r : ConsentRecord) : Type 0 where
  pub flag : r.satisfied ≡ is_satisfied r.required r.approvals
  pub parties :
      (p : String) → includes (principals r.approvals) p ≡ true → includes r.required p ≡ true
  pub once : Distinct (principals r.approvals)

pub open_consent-IsConsistent :
    (pairing_id : String) (subject : ConsentSubject) (required : List String) (now : ℕ)
    → IsConsistent (open_consent pairing_id subject required now)
unfolding open_consent is_satisfied
open_consent-IsConsistent pairing_id subject [] now = record {
  flag = refl;
  parties = λ p m. cc;
  once = tt;
}
open_consent-IsConsistent pairing_id subject (r ∷ rs) now = record {
  flag = refl;
  parties = λ p m. cc;
  once = tt;
}

pub withdraw-IsConsistent :
    (r : ConsentRecord) (principal : String) (now : ℕ)
    → IsConsistent r
    → IsConsistent (withdraw r principal now)
unfolding withdraw
withdraw-IsConsistent r principal now v = record {
  flag = refl;
  parties = λ p m.
      v.parties p (and_left _ _ (sym (includes-without_principal principal p r.approvals) ∙ m));
  once = Distinct-without_principal principal r.approvals v.once;
}

with_credentials-IsConsistent :
    (r : ConsentRecord) (dead : List String) (now : ℕ)
    → IsConsistent r
    → IsConsistent (with_approvals r (without_credentials dead r.approvals) now)
with_credentials-IsConsistent r dead now v = record {
  flag = refl;
  parties = λ p m. v.parties p (includes-without_credentials dead p r.approvals m);
  once = Distinct-without_credentials dead r.approvals v.once;
}

pub withdraw_by_credentials-IsConsistent :
    (r : ConsentRecord) (dead : List String) (now : ℕ)
    → IsConsistent r
    → IsConsistent (withdraw_by_credentials r dead now)
unfolding withdraw_by_credentials
withdraw_by_credentials-IsConsistent r dead now v =
    elim (Bool-cases (eqb (length (without_credentials dead r.approvals)) (length r.approvals))) [
      | inl e ↦ rw e v
      | inr e ↦ rw e (with_credentials-IsConsistent r dead now v)
    ]

principals-append :
    (given more : List Approval) → principals (given ++ more) ≡ principals given ++ principals more
principals-append [] more = refl
principals-append (a ∷ given) more = ap (◌∷◌ a.principal) (principals-append given more)

includes-principals-append :
    (given more : List Approval) (p : String)
    → includes (principals (given ++ more)) p
      ≡ (includes (principals given) p || includes (principals more) p)
includes-principals-append given more p =
    rw (principals-append given more) (includes-append (principals given) (principals more) p)

-- What a successful approval has checked, and the record that it makes.
pub record Approved (c : Crypto) (r next : ConsentRecord) (input : ApproveInput) (now : ℕ)
    : Type 0 where
  pub approval : Approval
  pub principal : approval.principal ≡ input.payload.prn
  pub credential : approval.credential ≡ input.payload.jti
  pub required : includes r.required input.payload.prn ≡ true
  pub signed :
      verify_approval_signature c input.pairing_id r.subject approval.signature input.payload.cnf
      ≡ true
  pub made :
      next ≡ with_approvals r (without_principal input.payload.prn r.approvals ++ approval ∷ []) now

pub approve-Approved :
    (c : Crypto) (r next : ConsentRecord) (input : ApproveInput) (now : ℕ)
    → approve c (some r) input now ≡ ok next
    → (input.assurance ≡ pop) × Approved c r next input now
unfolding approve
approve-Approved c r next input now h =
    let (possession, h₁) = guard-eq-ok (is_pop input.assurance) _ _ h in
    let (signature, given, h₂) = or_throw-eq-ok (signature_text input.signature) _ _ h₁ in
    let (required, h₃) = guard-eq-ok (includes r.required input.payload.prn) _ _ h₂ in
    let (signed, h₄) = guard-eq-ok _ _ _ h₃ in
    (
      ground arith,
      record {
        approval = record {
          principal = input.payload.prn;
          credential = input.payload.jti;
          at = now;
          signature = signature;
        };
        principal = refl;
        credential = refl;
        required = required;
        signed = signed;
        made = sym (ok-injective h₄);
      },
    )

-- Every operation on a consent record keeps it consistent, and the record of a new proposal is.
pub approve-IsConsistent :
    (c : Crypto) (r next : ConsentRecord) (input : ApproveInput) (now : ℕ)
    → IsConsistent r
    → approve c (some r) input now ≡ ok next
    → IsConsistent next
approve-IsConsistent c r next input now v h =
    let done : Approved c r next input now = (approve-Approved c r next input now h).1 in
    let left = without_principal input.payload.prn r.approvals in
    rw done.made (record {
      flag = refl;
      parties = λ p m. ground (
        arith,
        done.principal,
        done.required,
        includes-principals-append left (done.approval ∷ []) p,
        includes-without_principal input.payload.prn p r.approvals,
        v.parties p,
      );
      once = rw (principals-append left (done.approval ∷ [])) (
          Distinct-append_one (principals left) done.approval.principal
            (Distinct-without_principal input.payload.prn r.approvals v.once)
            (rw done.principal (
              ground (
                arith,
                includes-without_principal input.payload.prn input.payload.prn r.approvals,
              ))));
    })
