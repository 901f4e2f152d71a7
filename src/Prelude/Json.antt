-- ===== src/Prelude/Json.antt =====
-- Parsed JSON, as `JSON.parse` returns it. A number is a natural one or another one, by its text;
-- an object has each key once.
use Prim.Native.Nat.{ℕ}
use Prim.Native.String.{String}
use mathlib.Core.Bool.{Bool, false}
use mathlib.Core.Option.{Option, none, some}
use package.text.Mathlib.Text.{◌==◌}
use arch_loop.Prelude.Tests.{if◌then◌else◌}

mutual
  pub data Json : Type 0 where
    null : Json
    bool : Bool → Json
    number : ℕ → Json
    other_number : String → Json
    text : String → Json
    array : Items → Json
    object : Fields → Json

  pub data Items : Type 0 where
    nil : Items
    cons : Json → Items → Items

  pub data Fields : Type 0 where
    end : Fields
    field : String → Json → Fields → Fields

-- `record[key]` of an object
abbrev pub member : String → Fields → Option Json
member key end = none
member key (field k v fs) = if k == key then some v else member key fs

-- `typeof value === "string" && value.length > 0`
abbrev pub non_empty_text : Option Json → Option String
non_empty_text (some (text (String.◌∷◌ c s))) = some (String.◌∷◌ c s)
non_empty_text _ = none

-- `typeof value === "number" && Number.isInteger(value) && value > 0`
abbrev pub positive_integer : Option Json → Option ℕ
positive_integer (some (number (ℕ.suc n))) = some (ℕ.suc n)
positive_integer _ = none

abbrev pub is_literal : String → Option Json → Bool
is_literal s (some (text t)) = t == s
is_literal s _ = false
