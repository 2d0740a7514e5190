-- ===== src/Record/MobileForm/Privacy.antt =====
-- Sensitive fields of the phone's editor, and what an accepted form is known to hold.
use kall.Common.{
  String, ◌≡◌, refl, ap, ◌∙◌, inl, inr, true, false, Option, none, some, List, [], ◌∷◌, arith,
  eq_iff, eq_refl, if◌then◌else◌, Bool-cases, All, All-mem, Memᴰ,
}
use mathlib.Core.Path.{subst}
use Prim.Native.String
use kall.Common.Text.{is_nonempty}
use kall.Common.Json.{Json, str, Fields}
use kall.Record.{RecordField, date}
use kall.Record.Values.{lookup, assign, lookup-assign}
use kall.Record.MobileForm.{
  Value, typed, skip, set, fail, built, field_entry, build_data, is_checkbox, typed_text, is_date,
  initial_value, initial_values, raw_of, initial_from,
}
use kall.Record.MobileForm.Entries.{Misses, HasDistinctNames, Holds, build_data-Holds}

lookup-initial_from :
    (name : String) (fs : List RecordField) (row : Option Fields) (values : List (String × Value))
    → Misses name fs
    → lookup name (initial_from values fs row) ≡ lookup name values
lookup-initial_from name [] row values h = refl
lookup-initial_from name (f ∷ fs) row values (h, hs) =
    lookup-initial_from name fs row (assign f.name (initial_value f (raw_of row f.name)) values) hs
    ∙ ground (
      arith,
      lookup-assign f.name name (initial_value f (raw_of row f.name)) values,
      eq_iff f.name name,
    )

initial_from-All :
    (fs : List RecordField) (row : Option Fields) (values : List (String × Value))
    → HasDistinctNames fs
    → All
        (λ f.
          lookup f.name (initial_from values fs row) ≡ some (initial_value f (raw_of row f.name)))
        fs
initial_from-All [] row values d = tt
initial_from-All (f ∷ fs) row values (d, ds) =
    let shown : Value = initial_value f (raw_of row f.name) in
    (
      lookup-initial_from f.name fs row (assign f.name shown values) d
          ∙ ground (arith, lookup-assign f.name f.name shown values, eq_refl f.name),
      initial_from-All fs row (assign f.name shown values) ds,
    )

-- The form shows under each field's name what the saved row has for it.
pub lookup-initial_values :
    (fs : List RecordField) (row : Option Fields) (f : RecordField)
    → HasDistinctNames fs
    → Memᴰ f fs
    → lookup f.name (initial_values fs row) ≡ some (initial_value f (raw_of row f.name))
unfolding initial_values
lookup-initial_values fs row f d m =
    All-mem
      (λ g. lookup g.name (initial_from [] fs row) ≡ some (initial_value g (raw_of row g.name))) fs
      (initial_from-All fs row [] d) m

-- A sensitive field is never filled from the saved row.
initial_value-sensitive :
    (f : RecordField) (raw : Option Json)
    → f.sensitive ≡ true
    → is_checkbox f.kind ≡ false
    → initial_value f raw ≡ typed ""
unfolding initial_value
initial_value-sensitive f raw h k = ground arith

field_entry-blank :
    (lower : String → String) (to_number : String → Option String) (f : RecordField)
    → f.sensitive ≡ true
    → is_checkbox f.kind ≡ false
    → field_entry lower to_number f (some (typed "")) ≡ skip
unfolding field_entry typed_text
field_entry-blank lower to_number f h k = ground arith

field_entry-required :
    (lower : String → String) (to_number : String → Option String) (f : RecordField)
    (raw : Option Value)
    → f.required ≡ true
    → f.sensitive ≡ false
    → is_checkbox f.kind ≡ false
    → is_nonempty (typed_text raw) ≡ false
    → field_entry lower to_number f raw ≡ fail (String.◌++◌ f.label " is required.")
unfolding field_entry
field_entry-required lower to_number f raw q h k blank = ground arith

field_entry-date :
    (lower : String → String) (to_number : String → Option String) (f : RecordField)
    (raw : Option Value)
    → f.kind ≡ date
    → f.sensitive ≡ false
    → is_nonempty (typed_text raw) ≡ true
    → field_entry lower to_number f raw ≡ (
        if is_date (typed_text raw)
        then set (str (typed_text raw))
        else fail (String.◌++◌ f.label " must be written as YYYY-MM-DD."))
unfolding field_entry
field_entry-date lower to_number f raw q h filled = simp (q, h, filled)

module _ (lower : String → String) (to_number : String → Option String)
    (fs : List RecordField) where
  -- The data of an accepted form answers to the field's own round.
  field-Holds :
      (values : List (String × Value)) (data' : List (String × Json)) (f : RecordField)
      → HasDistinctNames fs
      → Memᴰ f fs
      → build_data lower to_number fs values ≡ built data'
      → Holds (field_entry lower to_number f (lookup f.name values)) (lookup f.name data')
  field-Holds values data' f d m e =
      All-mem
        (λ g. Holds (field_entry lower to_number g (lookup g.name values)) (lookup g.name data')) fs
        (build_data-Holds lower to_number fs values data' d e) m

  -- A sensitive field that is blank in the form is not in what the editor sends.
  pub blank_sensitive :
      (values : List (String × Value)) (data' : List (String × Json)) (f : RecordField)
      → HasDistinctNames fs
      → Memᴰ f fs
      → f.sensitive ≡ true
      → is_checkbox f.kind ≡ false
      → lookup f.name values ≡ some (typed "")
      → build_data lower to_number fs values ≡ built data'
      → lookup f.name data' ≡ none
  blank_sensitive values data' f d m h k blank e =
      subst (λ r. Holds r (lookup f.name data'))
        (ap (field_entry lower to_number f) blank ∙ field_entry-blank lower to_number f h k)
        (field-Holds values data' f d m e)

  -- A sensitive field is blank in the form of a row that is opened.
  pub shown_blank :
      (row : Option Fields) (f : RecordField)
      → HasDistinctNames fs
      → Memᴰ f fs
      → f.sensitive ≡ true
      → is_checkbox f.kind ≡ false
      → lookup f.name (initial_values fs row) ≡ some (typed "")
  shown_blank row f d m h k =
      lookup-initial_values fs row f d m
      ∙ ap some (initial_value-sensitive f (raw_of row f.name) h k)

  -- A sensitive field that is left untouched is not in what the editor sends, whatever the saved row
  -- has for it, so saving the form cannot overwrite the stored value.
  pub untouched_sensitive :
      (row : Option Fields) (data' : List (String × Json)) (f : RecordField)
      → HasDistinctNames fs
      → Memᴰ f fs
      → f.sensitive ≡ true
      → is_checkbox f.kind ≡ false
      → build_data lower to_number fs (initial_values fs row) ≡ built data'
      → lookup f.name data' ≡ none
  untouched_sensitive row data' f d m h k e =
      blank_sensitive (initial_values fs row) data' f d m h k (shown_blank row f d m h k) e

  -- An accepted form leaves no required field blank.
  pub required_is_filled :
      (values : List (String × Value)) (data' : List (String × Json)) (f : RecordField)
      → HasDistinctNames fs
      → Memᴰ f fs
      → f.required ≡ true
      → f.sensitive ≡ false
      → is_checkbox f.kind ≡ false
      → build_data lower to_number fs values ≡ built data'
      → is_nonempty (typed_text (lookup f.name values)) ≡ true
  required_is_filled values data' f d m q h k e =
      elim (Bool-cases (is_nonempty (typed_text (lookup f.name values)))) [
        | inl filled ↦ filled
        | inr blank ↦
            elim (subst (λ r. Holds r (lookup f.name data'))
              (field_entry-required lower to_number f (lookup f.name values) q h k blank)
              (field-Holds values data' f d m e)) [ ]
      ]

  -- A date that an accepted form holds is written as YYYY-MM-DD, and it is what the editor sends.
  pub date_is_checked :
      (values : List (String × Value)) (data' : List (String × Json)) (f : RecordField)
      → HasDistinctNames fs
      → Memᴰ f fs
      → f.kind ≡ date
      → f.sensitive ≡ false
      → is_nonempty (typed_text (lookup f.name values)) ≡ true
      → build_data lower to_number fs values ≡ built data'
      → (is_date (typed_text (lookup f.name values)) ≡ true)
        × (lookup f.name data' ≡ some (str (typed_text (lookup f.name values))))
  date_is_checked values data' f d m q h filled e =
      let s : String = typed_text (lookup f.name values) in
      let round =
        subst (λ r. Holds r (lookup f.name data'))
          (field_entry-date lower to_number f (lookup f.name values) q h filled)
          (field-Holds values data' f d m e) in
      elim (Bool-cases (is_date s)) [
        | inl good ↦ (good, rw good at round)
        | inr bad ↦ elim (rw bad at round) [ ]
      ]
