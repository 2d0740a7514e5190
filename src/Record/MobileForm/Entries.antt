-- ===== src/Record/MobileForm/Entries.antt =====
-- What `buildData` sends, field by field.
use kall.Common.{
  String, ◌≡◌, refl, sym, ap, ◌∙◌, ◌≢◌, Option, none, some, List, [], ◌∷◌, arith, eq_iff, eq_refl,
  All,
}
use kall.Common.Json.{Json}
use kall.Record.{RecordField}
use kall.Record.Values.{lookup, assign, lookup-assign}
use kall.Record.MobileForm.{
  Value, Entry, skip, set, fail, Built, built, field_entry, proceed, build_from, build_data,
}

-- No field of the list has this name.
abbrev pub Misses : String → List RecordField → Type 0
Misses name fields = All (λ f. f.name ≢ name) fields

abbrev pub HasDistinctNames : List RecordField → Type 0
HasDistinctNames [] = Unit
HasDistinctNames (f ∷ fs) = Misses f.name fs × HasDistinctNames fs

-- What the data must hold under a field's name, by what its round of the loop does.
abbrev pub Holds : Entry → Option Json → Type 0
Holds skip found = found ≡ none
Holds (set v) found = found ≡ some v
Holds (fail message) found = ⊥

abbrev next_data : Entry → String → List (String × Json) → List (String × Json)
next_data (set v) name acc = assign name v acc
next_data _ name acc = acc

-- A round that does not end the loop goes on with the next data.
went_on :
    (r : Entry) (name : String) (k : List (String × Json) → Built)
    (acc data' : List (String × Json))
    → proceed r name k acc ≡ built data'
    → k (next_data r name acc) ≡ built data'
went_on skip name k acc data' e = e
went_on (set v) name k acc data' e = e
went_on (fail m) name k acc data' e = cc

lookup-next_data :
    (r : Entry) (name other : String) (acc : List (String × Json))
    → name ≢ other
    → lookup other (next_data r name acc) ≡ lookup other acc
lookup-next_data skip name other acc h = refl
lookup-next_data (set v) name other acc h =
    ground (arith, lookup-assign name other v acc, eq_iff name other)
lookup-next_data (fail m) name other acc h = refl

-- The round leaves what it must under its own name.
round-Holds :
    (r : Entry) (name : String) (k : List (String × Json) → Built)
    (acc data' : List (String × Json))
    → proceed r name k acc ≡ built data'
    → lookup name acc ≡ none
    → lookup name data' ≡ lookup name (next_data r name acc)
    → Holds r (lookup name data')
round-Holds skip name k acc data' e h same = same ∙ h
round-Holds (set v) name k acc data' e h same =
    same ∙ ground (arith, lookup-assign name name v acc, eq_refl name)
round-Holds (fail m) name k acc data' e h same = cc

All-free :
    (r : Entry) (name : String) (acc : List (String × Json)) (fs : List RecordField)
    → Misses name fs
    → All (λ f. lookup f.name acc ≡ none) fs
    → All (λ f. lookup f.name (next_data r name acc) ≡ none) fs
All-free r name acc [] h k = tt
All-free r name acc (f ∷ fs) (h, hs) (k, ks) =
    (lookup-next_data r name f.name acc (λ e. h (sym e)) ∙ k, All-free r name acc fs hs ks)

module _ (lower : String → String) (to_number : String → Option String)
    (values : List (String × Value)) (data' : List (String × Json)) where
  abbrev entry_of : RecordField → Entry
  entry_of f = field_entry lower to_number f (lookup f.name values)

  -- A name that no field has is left as it is.
  lookup-build_from :
      (name : String) (fs : List RecordField) (acc : List (String × Json))
      → Misses name fs
      → build_from lower to_number fs values acc ≡ built data'
      → lookup name data' ≡ lookup name acc
  unfolding build_from
  lookup-build_from name [] acc h e = ap (lookup name) (cc)
  lookup-build_from name (f ∷ fs) acc (h, hs) e =
      lookup-build_from name fs (next_data (entry_of f) f.name acc) hs
        (went_on (entry_of f) f.name (build_from lower to_number fs values) acc data' e)
      ∙ lookup-next_data (entry_of f) f.name name acc h

  build_from-Holds :
      (fs : List RecordField) (acc : List (String × Json))
      → HasDistinctNames fs
      → All (λ f. lookup f.name acc ≡ none) fs
      → build_from lower to_number fs values acc ≡ built data'
      → All (λ f. Holds (entry_of f) (lookup f.name data')) fs
  unfolding build_from
  build_from-Holds [] acc d k e = tt
  build_from-Holds (f ∷ fs) acc (d, ds) (k, ks) e =
      let rest = went_on (entry_of f) f.name (build_from lower to_number fs values) acc data' e in
      let acc' = next_data (entry_of f) f.name acc in
      (
        round-Holds (entry_of f) f.name (build_from lower to_number fs values) acc data' e k
            (lookup-build_from f.name fs acc' d rest),
        build_from-Holds fs acc' ds (All-free (entry_of f) f.name acc fs d ks) rest,
      )

no_data : (fs : List RecordField) → All (λ f. lookup {V = Json} f.name [] ≡ none) fs
unfolding lookup
no_data [] = tt
no_data (f ∷ fs) = (refl, no_data fs)

-- Where the fields of a section have distinct names and the form is accepted, the data holds under each
-- field's name just what the loop's round for that field says, and nothing for a field that is skipped.
pub build_data-Holds :
    (lower : String → String) (to_number : String → Option String) (fs : List RecordField)
    (values : List (String × Value)) (data' : List (String × Json))
    → HasDistinctNames fs
    → build_data lower to_number fs values ≡ built data'
    → All
        (λ f. Holds (field_entry lower to_number f (lookup f.name values)) (lookup f.name data'))
        fs
unfolding build_data
build_data-Holds lower to_number fs values data' d e =
    build_from-Holds lower to_number values data' fs [] d (no_data fs) e
