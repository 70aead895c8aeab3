-- ===== src/Prelude/Json.antt =====
-- The values that `JSON.parse` makes of a request body, where the source takes an `unknown`.
use inzo.Prelude.Int.{ℤ}
use Prim.Native.String.{String}
use mathlib.Core.Bool.{Bool}
use mathlib.Core.List.{List, [], ◌∷◌}

-- A number with a fractional part is `fraction`: the code never looks at its digits.
mutual
  pub data Json : Type 0 where
    null : Json
    bool : Bool → Json
    int : ℤ → Json
    fraction : Json
    str : String → Json
    arr : Items → Json
    obj : Fields → Json

  pub data Items : Type 0 where
    nil : Items
    cons : Json → Items → Items

  pub data Fields : Type 0 where
    end : Fields
    field : String → Json → Fields → Fields

abbrev pub items : Items → List Json
items nil = []
items (cons v vs) = v ∷ items vs

-- An object whose first field is a text.
abbrev pub text_field : String → String → Fields → Json
text_field name text rest = obj (field name (str text) rest)
