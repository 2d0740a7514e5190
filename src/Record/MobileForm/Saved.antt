-- ===== src/Record/MobileForm/Saved.antt =====
-- What the phone sends when a row of the record is edited: apps/mobile/src/screens/RecordResourceScreen.tsx.
use kall.Common.{
  eq_iff, ◌≢◌, ◌∙◌, ℕ, String, ◌≡◌, refl, true, false, Option, none, some, List, [], ◌∷◌, arith,
  Memᴰ, All,
}
use kall.Common.Json.{Json}
use kall.Mobile.Task.{Result, ok, failed, Server, run, ◌>>=◌, catch, finally}
use kall.Record.{RecordField}
use kall.Record.Values.{lookup, assign, lookup-assign}
use kall.Record.MobileSchemas.{RecordSchema}
use kall.Record.MobileForm.{Value, Built, built, invalid, build_data, initial_values, is_checkbox}
use kall.Record.MobileForm.Entries.{HasDistinctNames}
use kall.Record.MobileForm.Privacy.{blank_sensitive, shown_blank}
use kall.Record.MobileForm.Screen.{
  RecordRow, Request, fetch_records, create_record, update_record, Response, Screen, set_value,
  edit, save_built, save,
}

-- A request leaves out a field.
abbrev pub LeavesOut : String → Request → Type 0
LeavesOut name (create_record data_sent) = lookup name data_sent ≡ none
LeavesOut name (update_record id data_sent) = lookup name data_sent ≡ none
LeavesOut name _ = Unit

-- A row that is opened, and then has values typed into some of its fields.
abbrev pub typed_into : List (String × Value) → Screen → Screen
typed_into [] s = s
typed_into ((name, value) ∷ edits) s = typed_into edits (set_value name value s)

abbrev assigned : List (String × Value) → List (String × Value) → List (String × Value)
assigned [] values = values
assigned ((name, value) ∷ edits) values = assigned edits (assign name value values)

editing-typed_into :
    (edits values : List (String × Value)) (id : Option ℕ) (s : Screen)
    → s.editing ≡ some (record { id = id; values = values })
    → (typed_into edits s).editing ≡ some (record { id = id; values = assigned edits values })
unfolding set_value
editing-typed_into [] values id s h = h
editing-typed_into ((name, value) ∷ edits) values id s h =
    editing-typed_into edits (assign name value values) id (set_value name value s) (rw h refl)

abbrev pub Others : String → List (String × Value) → Type 0
Others name edits = All (λ p. p.0 ≢ name) edits

lookup-assigned :
    (name : String) (edits values : List (String × Value))
    → Others name edits
    → lookup name (assigned edits values) ≡ lookup name values
lookup-assigned name [] values h = refl
lookup-assigned name ((n, v) ∷ edits) values (h, hs) =
    lookup-assigned name edits (assign n v values) hs
    ∙ ground (arith, lookup-assign n name v values, eq_iff n name)

module _ (server : Server Request Response) (upper lower : String → String)
    (to_number : String → Option String) (schema : RecordSchema) where
  -- The requests of a save, after what the form was built into.
  abbrev after : Result Unit → List Request
  after (ok _) = fetch_records ∷ []
  after (failed e) = []

  abbrev pub sends : Option ℕ → Built → List Request
  sends id (invalid error) = []
  sends none (built data_sent) =
      create_record data_sent ∷ after (server [] (create_record data_sent))
  sends (some id) (built data_sent) =
      update_record id data_sent ∷ after (server [] (update_record id data_sent))

  pub save_built-sends :
      (id : Option ℕ) (b : Built) (s : Screen)
      → (run server (save_built upper lower to_number schema id b) s []).sent ≡ sends id b
  unfolding save_built run ◌>>=◌ catch finally
  save_built-sends id (invalid error) s = refl
  save_built-sends none (built data_sent) s = ground arith
  save_built-sends (some id) (built data_sent) s = ground arith

  after-LeavesOut : (name : String) (answer : Result Unit) → All (LeavesOut name) (after answer)
  after-LeavesOut name (ok _) = (tt, tt)
  after-LeavesOut name (failed e) = tt

  sends-LeavesOut :
      (name : String) (id : ℕ) (b : Built)
      → ((data_sent : List (String × Json)) → b ≡ built data_sent → lookup name data_sent ≡ none)
      → All (LeavesOut name) (sends (some id) b)
  sends-LeavesOut name id (invalid error) h = tt
  sends-LeavesOut name id (built data_sent) h =
      (h data_sent refl, after-LeavesOut name (server [] (update_record id data_sent)))

  save-editing :
      (drawn : Screen) (id : Option ℕ) (values : List (String × Value))
      → drawn.editing ≡ some (record { id = id; values = values })
      → save upper lower to_number schema drawn
        ≡ save_built upper lower to_number schema id
            (build_data lower to_number schema.fields values)
  unfolding save
  save-editing drawn id values h = rw h refl

  -- Where the fields of a section have distinct names, a row that is opened, has any values typed into other
  -- fields than a sensitive one, which is no checkbox, and is saved then, sends no request that has that field.
  pub edited-LeavesOut :
      (row : RecordRow) (s : Screen) (f : RecordField) (edits : List (String × Value))
      → HasDistinctNames schema.fields
      → Memᴰ f schema.fields
      → f.sensitive ≡ true
      → is_checkbox f.kind ≡ false
      → Others f.name edits
      → let drawn = typed_into edits (edit schema row s) in
        All (LeavesOut f.name) (run server (save upper lower to_number schema drawn) drawn []).sent
  unfolding edit
  edited-LeavesOut row s f edits d m h k others =
      let shown = initial_values schema.fields (some row.values) in
      let b = build_data lower to_number schema.fields (assigned edits shown) in
      rw
        (
          save-editing (typed_into edits (edit schema row s)) (some row.id) (assigned edits shown)
              (editing-typed_into edits shown (some row.id) (edit schema row s) refl),
          save_built-sends (some row.id) b _,
        )
        (sends-LeavesOut f.name row.id b (λ data_sent e.
          blank_sensitive lower to_number schema.fields (assigned edits shown) data_sent f d m h k
            (lookup-assigned f.name edits shown others
              ∙ shown_blank lower to_number schema.fields (some row.values) f d m h k)
            e))
