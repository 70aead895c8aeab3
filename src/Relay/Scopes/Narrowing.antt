-- ===== src/Relay/Scopes/Narrowing.antt =====
-- Narrowing a scope list can only give capabilities away.
use inzo.Prelude.{
  ◌≡◌, refl, includes, includes-filter, includes-dedup, filter, any, is_empty, String, Bool, true,
  false, not, ◌&&◌, List, [], ◌∷◌, ok, err, arith, Bool-cases, ◌⊎◌, inl, inr, >>=-eq-ok,
}
use inzo.Prelude.Json.{Json, arr, items, str, null, bool, int, fraction, obj}
use inzo.Relay.Errors.{bad_request}
use inzo.Relay.Scopes.{all_scopes, canonical, narrowed_scope, requested_subset, is_scope, texts}

is_empty-filter :
    (p : String → Bool) (xs : List String) (a : String)
    → is_empty (filter p xs) ≡ true
    → includes xs a ≡ true
    → p a ≡ false
is_empty-filter p [] a h m = cc
is_empty-filter p (x ∷ xs) a h m = ground (arith, is_empty-filter p xs a)

-- The texts that a request for a scope list names.
abbrev pub requested_texts : Json → List String
requested_texts (arr js) = texts (items js)
requested_texts _ = []

-- What a request may keep is what it asks for, and was held before.
pub includes-requested_subset :
    (requested : Json) (current next : List String) (a : String)
    → requested_subset requested current ≡ ok next
    → includes next a ≡ includes (requested_texts requested) a
includes-requested_subset (arr js) current next a h =
    ground (arith, includes-dedup (texts (items js)) a)
includes-requested_subset _ current next a h = cc

pub requested_subset-held :
    (requested : Json) (current next : List String) (a : String)
    → requested_subset requested current ≡ ok next
    → includes next a ≡ true
    → includes current a ≡ true
requested_subset-held (arr js) current next a h m =
    ground (arith, is_empty-filter (λ entry. not (includes current entry)) next a)
requested_subset-held _ current next a h m = cc

includes-texts :
    (js : List Json) (a : String)
    → any (λ entry. not (is_scope entry)) js ≡ false
    → includes (texts js) a ≡ true
    → includes all_scopes a ≡ true
includes-texts [] a h m = cc
includes-texts (str s ∷ js) a h m = ground (arith, includes-texts js a)
includes-texts (null ∷ js) a h m = cc
includes-texts (bool b ∷ js) a h m = cc
includes-texts (int n ∷ js) a h m = cc
includes-texts (fraction ∷ js) a h m = cc
includes-texts (arr xs ∷ js) a h m = cc
includes-texts (obj fs ∷ js) a h m = cc

pub includes-canonical :
    (next : List String) (a : String)
    → includes (canonical next) a ≡ (includes all_scopes a && includes next a)
includes-canonical next a = includes-filter (includes next) all_scopes a

requested_texts-known :
    (requested : Json) (current next : List String) (a : String)
    → requested_subset requested current ≡ ok next
    → includes (requested_texts requested) a ≡ true
    → includes all_scopes a ≡ true
requested_texts-known (arr js) current next a h m =
    elim (Bool-cases (any (λ entry. not (is_scope entry)) (items js))) [
      | inl e ↦ absurd (ground arith)
      | inr e ↦ includes-texts (items js) a e m
    ]
requested_texts-known _ current next a h m = cc

kept_of :
    (kept known next asked held : Bool)
    → kept ≡ (known && next)
    → next ≡ asked
    → (asked ≡ true → known ≡ true)
    → (next ≡ true → held ≡ true)
    → (kept ≡ asked) × (kept ≡ true → held ≡ true)
kept_of kept known next true held e n k h = ground arith
kept_of kept known next false held e n k h = ground arith

-- A narrowed list holds exactly the capabilities that were asked for, and every one of them was
-- held before.
pub narrowed_scope-eq-ok :
    (requested : Json) (current kept : List String) (a : String)
    → narrowed_scope requested current ≡ ok kept
    → (includes kept a ≡ includes (requested_texts requested) a)
      × (includes kept a ≡ true → includes current a ≡ true)
unfolding narrowed_scope
narrowed_scope-eq-ok requested current kept a h =
    let (next, e, same) = >>=-eq-ok (requested_subset requested current) _ h in
    let asked = includes-requested_subset requested current next a e in
    let known = requested_texts-known requested current next a e in
    let held = requested_subset-held requested current next a e in
    let same' : canonical next ≡ kept = ground arith in
    rw (← same') (kept_of _ _ _ _ _ (includes-canonical next a) asked known held)

narrowed_scope_error :
    (requested : Json) (current : List String)
    → (narrowed_scope requested current ≡ err bad_request)
      ⊎ ((kept : List String) × (narrowed_scope requested current ≡ ok kept))
unfolding narrowed_scope
narrowed_scope_error (arr js) current = ground arith
narrowed_scope_error _ current = inl refl

-- A request that names a capability which is not held is refused as a bad request, whatever else
-- it names.
pub narrowed_scope-widening :
    (requested : Json) (current : List String) (a : String)
    → includes (requested_texts requested) a ≡ true
    → includes current a ≡ false
    → narrowed_scope requested current ≡ err bad_request
narrowed_scope-widening requested current a m h = elim (narrowed_scope_error requested current) [
  | inl e ↦ e
  | inr (kept, e) ↦
      let (same, held) = narrowed_scope-eq-ok requested current kept a e in
      absurd (ground (arith, held))
]
