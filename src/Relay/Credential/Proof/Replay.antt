-- ===== src/Relay/Credential/Proof/Replay.antt =====
-- A proof is accepted once: the guard remembers it for as long as its timestamp stays acceptable.
use inzo.Prelude.{
  ℕ, ◌+◌, ◌*◌, ◌≤◌, ◌≡◌, refl, ap, ◌∙◌, subst, ◌&&◌, ◌||◌, String, Bool, true, false, List, [], ◌∷◌,
  ◌++◌, ok, arith, leb, any, ◌==◌, guard-eq-ok, or_throw-eq-ok, leb→le, ok-injective,
}
use inzo.Prelude.Int.{ℤ, pos, negsuc}
use inzo.Relay.Credential.Interface.{Crypto}
use inzo.Relay.Credential.Issue.{seconds}
use inzo.Relay.Credential.Proof.{
  ProofInput, ProofReplayGuard, admit, has, kept, verify_proof, distance, window_of,
}

-- The proof stands in the list, accepted no earlier than a given second.
abbrev seen_since : String → ℕ → List (String × ℕ) → Bool
seen_since proof from seen = any (λ e. (e.0 == proof) && leb from e.1) seen

kept-seen_since :
    (window now_sec : ℕ) (proof : String) (from : ℕ) (seen : List (String × ℕ))
    → seen_since proof from seen ≡ true
    → now_sec ≤ from + window * 2
    → seen_since proof from (kept window now_sec seen) ≡ true
kept-seen_since window now_sec proof from [] s h = cc
kept-seen_since window now_sec proof from ((p, at) ∷ seen) s h =
    ground (arith, kept-seen_since window now_sec proof from seen)

has_of_seen_since :
    (proof : String) (from : ℕ) (seen : List (String × ℕ))
    → seen_since proof from seen ≡ true
    → has proof seen ≡ true
has_of_seen_since proof from [] s = cc
has_of_seen_since proof from ((p, at) ∷ seen) s = ground (arith, has_of_seen_since proof from seen)

seen_since-append :
    (proof : String) (from : ℕ) (xs ys : List (String × ℕ))
    → seen_since proof from (xs ++ ys) ≡ (seen_since proof from xs || seen_since proof from ys)
seen_since-append proof from [] ys = refl
seen_since-append proof from ((p, at) ∷ xs) ys = ground (arith, seen_since-append proof from xs ys)

-- A run of further requests, each a proof and the time at which it is checked.
abbrev pub admits : ProofReplayGuard → List (String × ℕ) → ProofReplayGuard
admits g [] = g
admits g ((proof, now) ∷ calls) = admits (admit g proof now).0 calls

-- No call of the run is made after a second.
abbrev pub Until : ℕ → List (String × ℕ) → Type 0
Until last [] = Unit {0}
Until last ((proof, now) ∷ calls) = (seconds now ≤ last) × Until last calls

admit-window :
    (g : ProofReplayGuard) (proof : String) (now : ℕ)
    → ((admit g proof now).0).window_seconds ≡ g.window_seconds
unfolding admit
admit-window g proof now = ground arith

admit-accepts :
    (g : ProofReplayGuard) (proof : String) (now : ℕ)
    → (admit g proof now).1 ≡ true
    → seen_since proof (seconds now) ((admit g proof now).0).seen ≡ true
unfolding admit
admit-accepts g proof now h =
    let left = kept g.window_seconds (seconds now) g.seen in
    ground (arith, seen_since-append proof (seconds now) left ((proof, seconds now) ∷ []))

admit-keeps :
    (g : ProofReplayGuard) (proof other : String) (from now : ℕ)
    → seen_since proof from g.seen ≡ true
    → seconds now ≤ from + g.window_seconds * 2
    → seen_since proof from ((admit g other now).0).seen ≡ true
unfolding admit
admit-keeps g proof other from now h l =
    let left = kept-seen_since g.window_seconds (seconds now) proof from g.seen h l in
    let added =
      seen_since-append proof from (kept g.window_seconds (seconds now) g.seen)
        ((other, seconds now) ∷ []) in
    ground arith

admits-keeps :
    (g : ProofReplayGuard) (calls : List (String × ℕ)) (proof : String) (from last : ℕ)
    → Until last calls
    → last ≤ from + g.window_seconds * 2
    → seen_since proof from g.seen ≡ true
    → (seen_since proof from (admits g calls).seen ≡ true)
      × ((admits g calls).window_seconds ≡ g.window_seconds)
admits-keeps g [] proof from last u l h = (h, refl)
admits-keeps g ((other, now) ∷ calls) proof from last (now_le, u) l h =
    let same = admit-window g other now in
    let (s, w) =
      admits-keeps (admit g other now).0 calls proof from last u
        (omega (arith, ap (λ n. n * 2) same))
        (admit-keeps g proof other from now h (omega arith)) in
    (s, w ∙ same)

admit-refuses :
    (g : ProofReplayGuard) (proof : String) (from now : ℕ)
    → seen_since proof from g.seen ≡ true
    → seconds now ≤ from + g.window_seconds * 2
    → (admit g proof now).1 ≡ false
unfolding admit
admit-refuses g proof from now h l = rw (
    has_of_seen_since proof from _
      (kept-seen_since g.window_seconds (seconds now) proof from g.seen h l))

verify_proof-within :
    (c : Crypto) (input : ProofInput) (ts : ℤ)
    → verify_proof c input ≡ ok ts
    → distance (seconds input.now) ts ≤ window_of input.window_seconds
unfolding verify_proof
verify_proof-within c input ts h =
    let (proof, given, h₁) = or_throw-eq-ok input.proof _ _ h in
    let (t, dated, h₂) = or_throw-eq-ok input.timestamp _ _ h₁ in
    let (near, h₃) = guard-eq-ok _ _ _ h₂ in
    let (holder, parsed, h₄) = or_throw-eq-ok (c.from_jwk input.payload.cnf) _ _ h₃ in
    let (signed, h₅) = guard-eq-ok _ _ _ h₄ in
    subst (λ u. distance (seconds input.now) u ≤ window_of input.window_seconds) (ok-injective h₅)
      (leb→le _ _ near)

window_span :
    (first second checked accepted window : ℕ) (ts : ℤ)
    → distance first ts ≤ window
    → distance second ts ≤ window
    → first ≤ checked
    → accepted ≤ second
    → accepted ≤ checked + window * 2
window_span first second checked accepted window (pos t) p q r s = omega arith
window_span first second checked accepted window (negsuc t) p q r s = omega arith

pub replay_refused :
    (c : Crypto) (g : ProofReplayGuard) (first second : ProofInput) (proof : String) (ts : ℤ)
    (accepted_at again_at : ℕ) (calls : List (String × ℕ))
    → verify_proof c first ≡ ok ts
    → verify_proof c second ≡ ok ts
    → window_of first.window_seconds ≤ g.window_seconds
    → window_of second.window_seconds ≤ g.window_seconds
    → (admit g proof accepted_at).1 ≡ true
    → seconds first.now ≤ seconds accepted_at
    → Until (seconds again_at) calls
    → seconds again_at ≤ seconds second.now
    → (admit (admits (admit g proof accepted_at).0 calls) proof again_at).1 ≡ false
replay_refused c g first second proof ts accepted_at again_at calls v₁ v₂ w₁ w₂ yes₁ after until
      same =
    let near₁ = verify_proof-within c first ts v₁ in
    let near₂ = verify_proof-within c second ts v₂ in
    let g' = (admit g proof accepted_at).0 in
    let span =
      window_span (seconds first.now) (seconds second.now) (seconds accepted_at) (seconds again_at)
        g.window_seconds ts (omega arith) (omega arith) after same in
    let w = admit-window g proof accepted_at in
    let within : seconds again_at ≤ seconds accepted_at + g'.window_seconds * 2 =
      omega (arith, ap (λ n. n * 2) w) in
    let (s, w') =
      admits-keeps g' calls proof (seconds accepted_at) (seconds again_at) until within
        (admit-accepts g proof accepted_at yes₁) in
    admit-refuses (admits g' calls) proof (seconds accepted_at) again_at s
      (omega (arith, ap (λ n. n * 2) w'))
