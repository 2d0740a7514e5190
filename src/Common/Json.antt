-- ===== src/Common/Json.antt =====
-- JSON values as the source reads them after `JSON.parse`, and the language's rules for their truth
-- and their text. A number is kept as the text that `String(n)` prints for it.
use Prim.Native.String.{String}
use mathlib.Core.Bool.{Bool, true, false, not}
use mathlib.Core.Option.{Option, none, some}
use mathlib.Core.List.{List, [], ◌∷◌}
use text.Mathlib.Text.{◌==◌ as str_eq}
use kall.Common.Tests.{if◌then◌else◌}
use kall.Common.Text.{join, is_nonempty}

mutual
  pub data Json : Type 0 where
    null : Json
    bool : Bool → Json
    num : (shown : String) → Json
    str : String → Json
    arr : Items → Json
    obj : Fields → Json

  pub data Items : Type 0 where
    nil : Items
    cons : Json → Items → Items

  pub data Fields : Type 0 where
    end : Fields
    field : String → Json → Fields → Fields

abbrev pub items : Items → List Json
items nil = []
items (cons v vs) = v ∷ items vs

-- The last of two fields with one name counts, as `JSON.parse` has it.
abbrev pub get_field : String → Fields → Option Json
get_field name end = none
get_field name (field k v rest) = elim (get_field name rest) [
  | some w ↦ some w
  | none ↦ if str_eq k name then some v else none
]

-- `value.name` of a value that is not null: absent on all but objects.
abbrev pub member : String → Json → Option Json
member name (obj fs) = get_field name fs
member name _ = none

-- Whether a value that may be absent counts as true.
abbrev pub is_truthy : Option Json → Bool
is_truthy none = false
is_truthy (some null) = false
is_truthy (some (bool b)) = b
is_truthy (some (num shown)) = not (str_eq shown "0")
is_truthy (some (str s)) = is_nonempty s
is_truthy (some _) = true

-- `String(value)`, and the texts that `join` takes from the items of an array.
unfoldable mutual
  unfolding join

  pub to_text : Json → String
  to_text null = "null"
  to_text (bool true) = "true"
  to_text (bool false) = "false"
  to_text (num shown) = shown
  to_text (str s) = s
  to_text (arr vs) = join "," (texts vs)
  to_text (obj fs) = "[object Object]"

  pub texts : Items → List String
  texts nil = []
  texts (cons null vs) = "" ∷ texts vs
  texts (cons v vs) = to_text v ∷ texts vs
