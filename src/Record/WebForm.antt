-- ===== src/Record/WebForm.antt =====
-- How the page of the record (apps/web/app/profiles/RecordTab.tsx) reads its form, titles a saved row and
-- lists its details. `lower` is the language's `toLowerCase`, and `to_number` its `Number`: the text of the
-- number if it is finite.
pub mod Laws
use kall.Common.{
  String, Bool, true, false, not, Option, none, some, List, [], ◌∷◌, map, str_eq, if◌then◌else◌,
  keep, contains,
}
use Prim.Native.String
use kall.Common.Text.{trim, is_nonempty, join}
use kall.Common.Json.{Json, null, bool, num, str, arr, Fields, get_field, to_text, texts}
use kall.Record.{RecordField, FieldKind, number, list}
use kall.Record.Split.{split_list}
use kall.Record.Values.{lookup, assign}
use kall.Record.MobileForm.{is_checkbox, to_array}

-- `String(form.get(field.name) ?? '').trim()`
unfoldable pub entered : Option String → String
unfolding trim
entered none = ""
entered (some s) = trim s

abbrev pub is_on : Option String → Bool
is_on none = false
is_on (some s) = str_eq s "on"

-- `Number.isFinite(value) ? value : undefined`
abbrev pub number_json : Option String → Option Json
number_json none = none
number_json (some shown) = some (num shown)

module _ (lower : String → String) (to_number : String → Option String) where
  abbrev pub read_kind : FieldKind → String → Option Json
  read_kind list raw = some (arr (to_array (split_list lower raw)))
  read_kind number raw = number_json (to_number raw)
  read_kind _ raw = some (str raw)

  -- `undefined` is none.
  unfoldable pub read_field : RecordField → Option String → Option Json
  unfolding entered
  read_field f got =
      if is_checkbox f.kind
      then some (bool (is_on got))
      else if not (is_nonempty (entered got))
      then none
      else read_kind f.kind (entered got)

  abbrev pub put : String → Option Json → List (String × Json) → List (String × Json)
  put name none acc = acc
  put name (some v) acc = assign name v acc

  unfoldable pub read_from :
      List RecordField → List (String × String) → List (String × Json) → List (String × Json)
  read_from [] form acc = acc
  read_from (f ∷ fs) form acc =
      read_from fs form (put f.name (read_field f (lookup f.name form)) acc)

  -- The data that `createStructured` posts.
  unfoldable pub structured : List RecordField → List (String × String) → List (String × Json)
  unfolding read_field read_from assign lookup
  structured fields form = read_from fields form []

abbrev pub title_text : Option Json → Option String
title_text (some (str s)) = some s
title_text _ = none

-- The first of these that is a text with more than white space, as it is.
unfoldable pub first_title : List (Option String) → String
unfolding trim
first_title [] = "Untitled"
first_title (none ∷ rest) = first_title rest
first_title (some s ∷ rest) = if is_nonempty (trim s) then s else first_title rest

unfoldable pub title_of : Fields → List String → String
unfolding first_title
title_of row title_fields = first_title (map (λ name. title_text (get_field name row)) title_fields)

pub record Detail : Type 0 where
  pub label : String
  pub value : String

-- The second filter of `detailsOf`.
abbrev pub is_shown : Option Json → Bool
is_shown none = false
is_shown (some null) = false
is_shown (some (str s)) = is_nonempty s
is_shown (some (bool b)) = b
is_shown (some _) = true

unfoldable pub detail_text : Option Json → String
unfolding join to_text
detail_text none = "undefined"
detail_text (some (arr vs)) = join ", " (texts vs)
detail_text (some (bool true)) = "Yes"
detail_text (some v) = to_text v

unfoldable pub details_of : Fields → List RecordField → List String → List Detail
unfolding detail_text
details_of row fields title_fields =
    keep (λ d. is_nonempty d.value)
      (map (λ f. record { label = f.label; value = detail_text (get_field f.name row) })
        (keep (λ f. is_shown (get_field f.name row))
          (keep (λ f. not (contains f.name title_fields)) fields)))

-- `resourceLabel`; `upper` is the language's `toUpperCase`.
unfoldable pub resource_label : (String → String) → String → String
resource_label upper String.[] = String.◌++◌ (upper "") ""
resource_label upper (String.◌∷◌ c s) = String.◌++◌ (upper (String.◌∷◌ c "")) s
