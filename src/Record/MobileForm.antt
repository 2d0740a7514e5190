-- ===== src/Record/MobileForm.antt =====
-- How the phone's editor fills its form from a saved row and builds what it sends: apps/mobile/src/screens/
-- RecordResourceScreen.tsx. `lower` is the language's `toLowerCase`, and `to_number` its `Number`: the text of
-- the number if it is finite.
pub mod Entries
pub mod Privacy
pub mod Screen
pub mod Saved
use kall.Common.{
  ℕ, code, String, Bool, true, false, not, ◌&&◌, Option, none, some, List, [], ◌∷◌, leb, ◌==◌,
  if◌then◌else◌,
}
use Prim.Native.String
use kall.Common.Text.{trim, is_nonempty, join}
use kall.Common.Json.{
  Json, null, bool, num, str, arr, Items, nil, cons, Fields, get_field, is_truthy, to_text, texts,
}
use kall.Record.{RecordField, FieldKind, date, number, checkbox, list}
use kall.Record.Split.{split_list}
use kall.Record.Values.{lookup, assign}

-- A value of the form: `string | boolean`.
pub data Value : Type 0 where
  flag : Bool → Value
  typed : String → Value

-- Whether a saved value is shown for a list, and how any other is.
abbrev list_text : Option Json → String
list_text (some (arr vs)) = join ", " (texts vs)
list_text _ = ""

abbrev shown_text : Option Json → String
shown_text none = ""
shown_text (some null) = ""
shown_text (some v) = to_text v

abbrev is_list : FieldKind → Bool
is_list list = true
is_list _ = false

abbrev pub is_checkbox : FieldKind → Bool
is_checkbox checkbox = true
is_checkbox _ = false

unfoldable pub initial_value : RecordField → Option Json → Value
unfolding join to_text
initial_value f raw =
    if is_checkbox f.kind
    then flag (is_truthy raw)
    else if f.sensitive
    then typed ""
    else if is_list f.kind
    then typed (list_text raw)
    else typed (shown_text raw)

-- `row?.[name]`
abbrev pub raw_of : Option Fields → String → Option Json
raw_of none name = none
raw_of (some row) name = get_field name row

abbrev initial_from :
    List (String × Value) → List RecordField → Option Fields → List (String × Value)
initial_from values [] row = values
initial_from values (f ∷ fs) row =
    initial_from (assign f.name (initial_value f (raw_of row f.name)) values) fs row

unfoldable pub initial_values : List RecordField → Option Fields → List (String × Value)
unfolding initial_value assign
initial_values fields row = initial_from [] fields row

-- `/^\d{4}-\d{2}-\d{2}$/`
abbrev is_digit : ℕ → Bool
is_digit c = leb b'0' c && leb c b'9'

abbrev matches : List Bool → String → Bool
matches [] String.[] = true
matches [] (String.◌∷◌ c s) = false
matches (d ∷ ds) String.[] = false
matches (true ∷ ds) (String.◌∷◌ c s) = is_digit (code c) && matches ds s
matches (false ∷ ds) (String.◌∷◌ c s) = code c == b'-' && matches ds s

unfoldable pub is_date : String → Bool
is_date s = matches (true ∷ true ∷ true ∷ true ∷ false ∷ true ∷ true ∷ false ∷ true ∷ true ∷ []) s

-- What one round of `buildData` does with a field: nothing, an assignment, or an early return.
pub data Entry : Type 0 where
  skip : Entry
  set : Json → Entry
  fail : String → Entry

pub data Built : Type 0 where
  built : List (String × Json) → Built
  invalid : String → Built

-- `typeof raw === 'string' ? raw.trim() : ''`
unfoldable pub typed_text : Option Value → String
unfolding trim
typed_text (some (typed s)) = trim s
typed_text _ = ""

abbrev value_truth : Option Value → Bool
value_truth none = false
value_truth (some (flag b)) = b
value_truth (some (typed s)) = is_nonempty s

abbrev pub to_array : List String → Items
to_array [] = nil
to_array (s ∷ ss) = cons (str s) (to_array ss)

abbrev proceed : Entry → String → (List (String × Json) → Built) → List (String × Json) → Built
proceed skip name k acc = k acc
proceed (set v) name k acc = k (assign name v acc)
proceed (fail message) name k acc = invalid message

module _ (lower : String → String) (to_number : String → Option String) where
  abbrev number_entry : String → Option String → Entry
  number_entry label none = fail (String.◌++◌ label " must be a number.")
  number_entry label (some shown) = set (num shown)

  abbrev kind_entry : FieldKind → String → String → Entry
  kind_entry list label s = set (arr (to_array (split_list lower s)))
  kind_entry number label s = number_entry label (to_number s)
  kind_entry date label s =
      if is_date s then set (str s) else fail (String.◌++◌ label " must be written as YYYY-MM-DD.")
  kind_entry _ label s = set (str s)

  abbrev text_entry : RecordField → String → Entry
  text_entry f s =
      if f.sensitive
      then (if is_nonempty s then set (str s) else skip)
      else if not (is_nonempty s)
      then (if f.required
          then fail (String.◌++◌ f.label " is required.")
          else set (if is_list f.kind then arr nil else null))
      else kind_entry f.kind f.label s

  unfoldable pub field_entry : RecordField → Option Value → Entry
  unfolding typed_text is_date
  field_entry f raw =
      if is_checkbox f.kind then set (bool (value_truth raw)) else text_entry f (typed_text raw)

  unfoldable pub build_from :
      List RecordField → List (String × Value) → List (String × Json) → Built
  build_from [] values acc = built acc
  build_from (f ∷ fs) values acc =
      proceed (field_entry f (lookup f.name values)) f.name (build_from fs values) acc

  unfoldable pub build_data : List RecordField → List (String × Value) → Built
  unfolding field_entry build_from assign lookup
  build_data fields values = build_from fields values []
