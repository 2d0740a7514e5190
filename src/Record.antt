-- ===== src/Record.antt =====
-- The professional record: what its sections ask for and how the editors read the answers, on the web
-- (apps/web/app/profiles) and on the phone (apps/mobile/src). Here are the types that both declare.
pub mod Split
pub mod Values
pub mod WebSchemas
pub mod MobileSchemas
pub mod Agreement
pub mod WebForm
pub mod MobileForm
pub mod Section
pub mod Tests
use kall.Common.{String, Bool, true, false, Option, none, some, List, [], ◌∷◌}

pub data FieldKind : Type 0 where
  text textarea date number select checkbox list : FieldKind

-- On the web no field is marked `sensitive`.
pub record RecordField : Type 0 where
  pub name : String
  pub label : String
  pub kind : FieldKind
  pub required : Bool
  pub options : List String
  pub help : Option String
  pub sensitive : Bool

-- An entry of a table: name, label and kind, then what the entry adds to them.
abbrev pub field : String → String → FieldKind → RecordField
field name label kind = record {
  name = name;
  label = label;
  kind = kind;
  required = false;
  options = [];
  help = none;
  sensitive = false;
}

abbrev pub required : RecordField → RecordField
required f = record f { required = true }

abbrev pub with_options : List String → RecordField → RecordField
with_options options f = record f { options = options }

abbrev pub with_help : String → RecordField → RecordField
with_help help f = record f { help = some help }

abbrev pub sensitive : RecordField → RecordField
sensitive f = record f { sensitive = true }

abbrev pub proficiency : List String
proficiency = "basic" ∷ "conversational" ∷ "professional" ∷ "native" ∷ []

abbrev pub comma_help : String
comma_help = "Separate multiple values with commas."

abbrev pub date_help : String
date_help = "YYYY-MM-DD"
