-- ===== src/Record/Tests.antt =====
-- The record's editors on concrete sections and forms.
use kall.Common.{
  arith, eq_iff, All, String, ◌≡◌, refl, true, false, Option, none, some, List, [], ◌∷◌, str_eq,
  if◌then◌else◌, Memᴰ,
}
use kall.Common.Text.{is_nonempty, trim}
use kall.Common.Json.{Json, str, Fields, end, get_field}
use kall.Common.Json as json
use kall.Record.{RecordField, field, required, sensitive, text, date}
use kall.Record.Split.{split_list}
use kall.Record.Values.{lookup}
use kall.Record.WebSchemas
use kall.Record.MobileSchemas
use kall.Record.Agreement.{differs-HasDistinctNames}
use kall.Record.MobileForm.{Value, typed, built, build_data, initial_values, typed_text}
use kall.Record.MobileForm.Entries.{HasDistinctNames}
use kall.Record.MobileSchemas.{RecordSchema}
use kall.Record.MobileForm.Screen.{
  RecordRow, Request, fetch_records, create_record, update_record, delete_record, Response, Screen,
  edit, save, row_title, humanize,
}
use kall.Record.MobileForm.Saved.{Others, typed_into, LeavesOut, edited-LeavesOut}
use kall.Mobile.Task.{Result, ok, Server, run, ◌>>=◌, catch, finally}
use kall.Record.WebForm.{title_text, detail_text}
use kall.Record.WebForm.Laws.{is_blank_title}
use kall.Record.Section.{SkillCheck, Tab}

-- Enough of `toLowerCase` and of `Number` for these tests.
abbrev lower : String → String
lower s = if str_eq s "SQL" then "sql" else s

abbrev to_number : String → Option String
to_number s = if str_eq s "7" then some "7" else none

split_texts : split_list lower " SQL, sql,,Machine   learning " ≡ "SQL" ∷ "Machine learning" ∷ []
unfolding split_list
split_texts = refl

abbrev licence : RecordField
licence = sensitive (field "credential_id" "Credential ID" text)

abbrev issued : RecordField
issued = field "issue_date" "Issue date" date

abbrev named : RecordField
named = required (field "name" "Certification" text)

abbrev fields : List RecordField
fields = named ∷ issued ∷ licence ∷ []

fields-HasDistinctNames : HasDistinctNames fields
fields-HasDistinctNames = differs-HasDistinctNames fields refl

abbrev row : Fields
row =
    json.field "name" (str "CKA")
      (json.field "issue_date" (str "2024-05-01") (json.field "credential_id" (str "X-1") end))

abbrev sent : List (String × Json)
sent = ("name", str "CKA") ∷ ("issue_date", str "2024-05-01") ∷ []

row_built : build_data lower to_number fields (initial_values fields (some row)) ≡ built sent
unfolding build_data initial_values
row_built = refl

abbrev form : List (String × Value)
form =
    ("name", typed " CKA ") ∷ ("issue_date", typed "2024-05-01") ∷ ("credential_id", typed "") ∷ []

form_built : build_data lower to_number fields form ≡ built sent
unfolding build_data
form_built = refl

abbrev section : RecordSchema
section = record {
  label = "Certifications";
  singular = "certification";
  description = "";
  fields = fields;
  title_fields = "name" ∷ [];
}

abbrev saved_row : RecordRow
saved_row = record { id = 3; values = row }

abbrev answer : (r : Request) → Result (Response r)
answer fetch_records = ok (saved_row ∷ [])
answer (create_record data_sent) = ok tt
answer (update_record id data_sent) = ok tt
answer (delete_record id) = ok tt

abbrev server : Server Request Response
server earlier r = answer r

abbrev screen : Screen
screen = record {
  rows = saved_row ∷ [];
  loading = false;
  editing = none;
  saving = false;
  message = "";
}

abbrev same_text : String → String
same_text s = s

what_is_sent :
    (run server
      (save same_text lower to_number section (edit section saved_row screen))
      (edit section saved_row screen)
      []).sent
    ≡ update_record 3 sent ∷ fetch_records ∷ []
unfolding run save edit ◌>>=◌ catch finally build_data initial_values
what_is_sent = refl

title_of_row : row_title same_text section saved_row ≡ "CKA"
unfolding row_title
title_of_row = refl

words : humanize (λ s. if str_eq s "h" then "H" else s) "hiring_head" ≡ "Hiring Head"
unfolding humanize
words = refl

abbrev edits : List (String × Value)
edits = ("name", typed "CKAD") ∷ ("issue_date", typed "2025-01-02") ∷ []

edits-Others : Others "credential_id" edits
edits-Others = (
  (λ e. ground (arith, eq_iff "name" "credential_id")),
  ((λ e. ground (arith, eq_iff "issue_date" "credential_id")), tt),
)

edited-LeavesOut_example :
    let drawn = typed_into edits (edit section saved_row screen) in
    All
      (LeavesOut "credential_id")
      (run server (save same_text lower to_number section drawn) drawn []).sent
edited-LeavesOut_example =
    edited-LeavesOut server same_text lower to_number section saved_row screen licence edits
      fields-HasDistinctNames (Memᴰ.tail (Memᴰ.tail (Memᴰ.head refl))) refl refl edits-Others

date_filled : is_nonempty (typed_text (lookup "issue_date" form)) ≡ true
unfolding typed_text lookup
date_filled = refl

nonblank : is_nonempty (trim "CKA") ≡ true
unfolding trim
nonblank = refl

no_title : is_blank_title (title_text (get_field "title" row)) ≡ true
unfolding is_blank_title
no_title = refl

licence_text : is_nonempty (detail_text (get_field "credential_id" row)) ≡ true
unfolding detail_text
licence_text = refl

service_found : lookup "service" WebSchemas.record_schemas ≡ some WebSchemas.service_schema
unfolding lookup
service_found = refl

service_found_mobile :
    lookup "service" MobileSchemas.record_schemas ≡ some MobileSchemas.service_schema
unfolding lookup
service_found_mobile = refl

abbrev kubernetes : SkillCheck
kubernetes = record { input = "Kubernets"; canonical = none; suggestion = some "Kubernetes" }

abbrev tab : Tab
tab = record {
  resource = "skills";
  rows = none;
  skill_names = "Go" ∷ "Kubernets" ∷ [];
  suggestions = none;
  checks =
      some (record { input = "Go"; canonical = some "Go"; suggestion = none } ∷ kubernetes ∷ []);
  message = "";
}
