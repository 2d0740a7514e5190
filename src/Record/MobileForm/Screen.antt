-- ===== src/Record/MobileForm/Screen.antt =====
-- The screen of one section of the record on the phone, around its editor:
-- apps/mobile/src/screens/RecordResourceScreen.tsx over apps/mobile/src/api/record.ts. `upper` is the
-- language's `toUpperCase`.
use kall.Common.{
  ℕ, code, String, Bool, true, false, not, ◌&&◌, ◌||◌, Option, none, some, List, [], ◌∷◌, map, leb,
  ◌==◌, if◌then◌else◌, keep, contains,
}
use Prim.Native.String
use kall.Common.Text.{trim, is_nonempty, join}
use kall.Common.Json.{Json, str, Fields, get_field}
use kall.Common.Decimal.{decimal}
use kall.Mobile.Task.{Task, give, ◌>>=◌, ◌>>◌, set, await, catch, finally, api_message}
use kall.Record.{RecordField, FieldKind, text, date, select}
use kall.Record.Values.{assign}
use kall.Record.MobileSchemas.{RecordSchema}
use kall.Record.MobileForm.{Value, Built, built, invalid, initial_values, build_data}

-- A saved row, with its identifier apart from its other values.
pub record RecordRow : Type 0 where
  pub id : ℕ
  pub values : Fields

pub data Request : Type 0 where
  fetch_records : Request
  create_record : (data_sent : List (String × Json)) → Request
  update_record : (id : ℕ) (data_sent : List (String × Json)) → Request
  delete_record : (id : ℕ) → Request

abbrev pub Response : Request → Type 0
Response fetch_records = List RecordRow
Response _ = Unit

-- What is edited: a row by its identifier, or a new one.
pub record Editing : Type 0 where
  pub id : Option ℕ
  pub values : List (String × Value)

pub record Screen : Type 0 where
  pub rows : List RecordRow
  pub loading : Bool
  pub editing : Option Editing
  pub saving : Bool
  pub message : String

abbrev pub Handler : Type 0
Handler = Task Screen Request Response Unit

abbrev pub say : String → Screen → Screen
say message s = record s { message = message }

abbrev is_word : ℕ → Bool
is_word c =
    (leb b'a' c && leb c b'z')
    || (leb b'A' c && leb c b'Z')
    || (leb b'0' c && leb c b'9')
    || c == b'_'

unfoldable pub spaced : String → String
spaced String.[] = ""
spaced (String.◌∷◌ c s) =
    if code c == b'_' then String.◌++◌ " " (spaced s) else String.◌∷◌ c (spaced s)

-- `replace(/\b\w/g, …)`, after a character that is of a word or not.
unfoldable pub capitalized : (upper : String → String) (inside : Bool) → String → String
capitalized upper inside String.[] = ""
capitalized upper inside (String.◌∷◌ c s) =
    let rest = capitalized upper (is_word (code c)) s in
    if is_word (code c) && not inside
    then String.◌++◌ (upper (String.◌∷◌ c "")) rest
    else String.◌∷◌ c rest

unfoldable pub humanize : (upper : String → String) → String → String
unfolding spaced capitalized
humanize upper value = capitalized upper false (spaced value)

abbrev filled_text : Option Json → Option String
filled_text (some (str s)) = if is_nonempty (trim s) then some s else none
filled_text _ = none

-- The values of some fields of a row that are texts and not blank.
unfoldable pub filled_texts : Fields → List String → List String
unfolding trim
filled_texts values [] = []
filled_texts values (name ∷ names) =
    let rest = filled_texts values names in
    elim (filled_text (get_field name values)) [ none ↦ rest | some s ↦ s ∷ rest ]

-- `humanize(fields[0].label)`; no section is without fields.
abbrev first_label : (upper : String → String) → List RecordField → String
first_label upper [] = ""
first_label upper (f ∷ fs) = humanize upper f.label

unfoldable pub row_title : (upper : String → String) → RecordSchema → RecordRow → String
unfolding filled_texts humanize join decimal
row_title upper schema row =
    let title = join " · " (filled_texts row.values schema.title_fields) in
    if is_nonempty title
    then title
    else join "" (first_label upper schema.fields ∷ " #" ∷ decimal row.id ∷ [])

abbrev is_shown_kind : FieldKind → Bool
is_shown_kind text = true
is_shown_kind date = true
is_shown_kind select = true
is_shown_kind _ = false

abbrev is_detail : (title_fields : List String) → RecordField → Bool
is_detail title_fields f =
    not (contains f.name title_fields) && (not f.sensitive && is_shown_kind f.kind)

abbrev first_two : List String → List String
first_two (x ∷ (y ∷ ys)) = x ∷ y ∷ []
first_two xs = xs

unfoldable pub row_detail : RecordSchema → RecordRow → String
unfolding filled_texts join
row_detail schema row = join " · " (
    first_two (
      filled_texts row.values
        (map (λ (f : RecordField). f.name) (keep (is_detail schema.title_fields) schema.fields))))

unfoldable pub load : Handler
unfolding api_message
load =
    finally
      (catch (do rows ← await fetch_records; set (λ s. record s { rows = rows; message = "" }))
        (λ e. set (say (api_message "Unable to load this section." e))))
      (λ s. record s { loading = false })

abbrev pub send : Option ℕ → List (String × Json) → Handler
send none data_sent = await (create_record data_sent)
send (some id) data_sent = await (update_record id data_sent)

-- The button that adds an entry, that of a row, and what is typed into a field.
unfoldable pub add : RecordSchema → Screen → Screen
unfolding initial_values
add schema s = record s {
  editing = some (record { id = none; values = initial_values schema.fields none });
}

unfoldable pub edit : RecordSchema → RecordRow → Screen → Screen
edit schema row s = record s {
  message = "";
  editing =
      some (record { id = some row.id; values = initial_values schema.fields (some row.values) });
}

unfoldable pub set_value : String → Value → Screen → Screen
unfolding assign
set_value name value s = record s {
  editing = elim s.editing [
    | none ↦ none
    | some e ↦ some (record e { values = assign name value e.values })
  ];
}

unfoldable pub cancel : Screen → Screen
cancel s = record s { editing = none }

module _ (upper lower : String → String) (to_number : String → Option String)
    (schema : RecordSchema) where
  -- The end of `save`, for what the form was built into.
  unfoldable pub save_built : Option ℕ → Built → Handler
  unfolding load humanize api_message
  save_built id (invalid error) = set (say error)
  save_built id (built data_sent) = do
    set (λ s. record s { saving = true; message = "" })
    finally
        (catch
          (do
            send id data_sent
            set (λ s. record s { editing = none })
            load
            set (say (String.◌++◌ (humanize upper schema.singular) " saved.")))
          (λ e.
            set (
              say (api_message (join "" ("Unable to save this " ∷ schema.singular ∷ "." ∷ [])) e))))
        (λ s. record s { saving = false })

  -- `save` of a render.
  unfoldable pub save : (drawn : Screen) → Handler
  unfolding save_built
  save drawn = elim drawn.editing [
    | none ↦ give tt
    | some e ↦ save_built e.id (build_data lower to_number schema.fields e.values)
  ]

  -- The button that deletes a row, once it is confirmed.
  unfoldable pub delete : (row : RecordRow) → Handler
  unfolding load humanize api_message
  delete row =
      catch
        (do
          await (delete_record row.id)
          load
          set (say (String.◌++◌ (humanize upper schema.singular) " deleted.")))
        (λ e. set (say (api_message "Unable to delete that entry." e)))
