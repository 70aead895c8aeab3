-- ===== src/Prelude/Text.antt =====
-- Texts compared as whole values, and lists of texts used as sets.
use Prim.Native.String.{String}
use mathlib.Core.Path.{◌≡◌, refl}
use mathlib.Core.Logic.{◌↔◌}
use mathlib.Core.Bool.{Bool, true, false, ◌&&◌, ◌||◌}
use mathlib.Core.List.{List, [], ◌∷◌, ◌++◌}
use mathlib.Core.HLevel.{hedberg}
use native.Mathlib.Omega.{arith}
use text.Mathlib.Text.{◌==◌ as same_text}
use text.Mathlib.TextEquality.{eq_iff}
use inzo.Prelude.Tests.{if◌then◌else◌}
use inzo.Prelude.Lists.{filter, all}

decide_by : {s t : String} (b : Bool) → (b ≡ true) ↔ (s ≡ t) → Dec (s ≡ t)
decide_by true h = yes (h.0 refl)
decide_by false h = no (λ e. cc (h.1 e))

unfoldable pub string_dec : (s t : String) → Dec (s ≡ t)
unfolding decide_by
string_dec s t = decide_by (same_text s t) (eq_iff s t)

pub String-set : IsSet String
String-set = hedberg string_dec

infix 50 ◌==◌
abbrev pub ◌==◌ : String → String → Bool
s == t = elim (string_dec s t) [ yes _ ↦ true | no _ ↦ false ]

abbrev pub includes : List String → String → Bool
includes [] a = false
includes (x ∷ xs) a = if x == a then true else includes xs a

-- A JavaScript `Set` keeps the order of insertion.
abbrev pub add_to_set : List String → String → List String
add_to_set xs a = if includes xs a then xs else xs ++ a ∷ []

abbrev pub dedup_from : List String → List String → List String
dedup_from seen [] = seen
dedup_from seen (x ∷ xs) = dedup_from (add_to_set seen x) xs

-- `[...new Set(xs)]`
abbrev pub dedup : List String → List String
dedup xs = dedup_from [] xs

pub includes-append :
    (xs ys : List String) (a : String) → includes (xs ++ ys) a ≡ (includes xs a || includes ys a)
includes-append [] ys a = refl
includes-append (x ∷ xs) ys a = ground (arith, includes-append xs ys a)

pub includes-filter :
    (p : String → Bool) (xs : List String) (a : String)
    → includes (filter p xs) a ≡ (includes xs a && p a)
includes-filter p [] a = refl
includes-filter p (x ∷ xs) a = ground (arith, includes-filter p xs a)

pub includes-add_to_set :
    (xs : List String) (a b : String) → includes (add_to_set xs a) b ≡ (includes xs b || (a == b))
includes-add_to_set xs a b = ground (arith, includes-append xs (a ∷ []) b)

includes-dedup_from :
    (seen xs : List String) (a : String)
    → includes (dedup_from seen xs) a ≡ (includes seen a || includes xs a)
includes-dedup_from seen [] a = ground arith
includes-dedup_from seen (x ∷ xs) a =
    ground (arith, includes-dedup_from (add_to_set seen x) xs a, includes-add_to_set seen x a)

pub includes-dedup : (xs : List String) (a : String) → includes (dedup xs) a ≡ includes xs a
includes-dedup xs a = includes-dedup_from [] xs a

pub all-includes :
    (xs ys : List String) (a : String)
    → all (includes xs) ys ≡ true
    → includes ys a ≡ true
    → includes xs a ≡ true
all-includes xs [] a h m = cc
all-includes xs (y ∷ ys) a h m = ground (arith, all-includes xs ys a)

pub all-includes_of :
    (xs ys : List String)
    → ((a : String) → includes ys a ≡ true → includes xs a ≡ true)
    → all (includes xs) ys ≡ true
all-includes_of xs [] h = refl
all-includes_of xs (y ∷ ys) h =
    ground (arith, h y, all-includes_of xs ys (λ a m. h a (ground arith)))

-- No text stands twice in the list.
abbrev pub Distinct : List String → Type 0
Distinct [] = Unit {0}
Distinct (x ∷ xs) = (includes xs x ≡ false) × Distinct xs

pub Distinct-append_one :
    (xs : List String) (a : String) → Distinct xs → includes xs a ≡ false → Distinct (xs ++ a ∷ [])
Distinct-append_one [] a d h = (refl, tt)
Distinct-append_one (x ∷ xs) a (fresh, d) h =
    (ground (arith, includes-append xs (a ∷ []) x), Distinct-append_one xs a d (ground arith))

pub ==_refl : (s : String) → (s == s) ≡ true
==_refl s = ground arith

pub ==→eq : (s t : String) → (s == t) ≡ true → s ≡ t
==→eq s t h = ground arith
