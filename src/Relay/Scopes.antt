-- ===== src/Relay/Scopes.antt =====
-- packages/relay/src/lib/scopes.ts. A scope is the text that names it, as in the source.
-- `serializeScope` and `parseScope` only put a scope list through JSON; a stored list is the list.
pub mod Narrowing
use inzo.Prelude.{
  ◌==◌, includes, dedup, filter, any, is_empty, String, Bool, true, false, not, List, [], ◌∷◌, map,
  Result, ok, err, guard, ◌>>◌, ◌>>=◌, if◌then◌else◌,
}
use inzo.Prelude.Json.{Json, null, bool, int, fraction, str, arr, obj, items}
use inzo.Relay.Errors.{Error, bad_request}

-- types.ts
abbrev pub all_scopes : List String
all_scopes =
    "messages:read" ∷ "messages:send" ∷ "plan:propose" ∷ "plan:approve" ∷ "usage:report"
    ∷ "commands:run" ∷ []

abbrev pub is_scope : Json → Bool
is_scope (str s) = includes all_scopes s
is_scope null = false
is_scope (bool b) = false
is_scope (int n) = false
is_scope fraction = false
is_scope (arr xs) = false
is_scope (obj fs) = false

-- The cast `as Scope[]`, made only after every entry has passed `isScope`.
abbrev pub texts : List Json → List String
texts [] = []
texts (str s ∷ js) = s ∷ texts js
texts (_ ∷ js) = texts js

-- The scope list that the caller keeps, in the order of `ALL_SCOPES`.
abbrev pub canonical : List String → List String
canonical next = filter (includes next) all_scopes

-- The checks that `narrowedScope` and `attenuate` share, after `Array.isArray`.
abbrev pub subset_of : List Json → List String → Result Error (List String)
subset_of requested current = do
  guard (not (any (λ entry. not (is_scope entry)) requested)) bad_request
  let next = dedup (texts requested)
  guard (is_empty (filter (λ entry. not (includes current entry)) next)) bad_request
  ok next

abbrev pub requested_subset : Json → List String → Result Error (List String)
requested_subset (arr requested) current = subset_of (items requested) current
requested_subset _ current = err bad_request

unfoldable pub narrowed_scope : Json → List String → Result Error (List String)
narrowed_scope requested current = do next ← requested_subset requested current; ok (canonical next)
