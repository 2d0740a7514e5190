-- ===== src/Record/Section.antt =====
-- The state of the page of the record (apps/web/app/profiles/RecordTab.tsx): the section on screen, its rows,
-- and the skills that are about to be added. Bodies of answers are JSON values, or for the spelling check the
-- list that it returns.
pub mod Stale
pub mod Skills
use kall.Common.{
  ℕ, zero, suc, ◌-◌, String, Bool, not, ◌&&◌, Option, none, some, List, [], ◌∷◌, ◌++◌, map, str_eq,
  ltb, leb, ◌==◌, if◌then◌else◌, length, keep, contains,
}
use Prim.Native.String
use kall.Common.Json.{Json}

pub record SkillCheck : Type 0 where
  pub input : String
  pub canonical : Option String
  pub suggestion : Option String

-- `rows` is none for the empty list that the page starts with, and so is `suggestions`.
pub record Tab : Type 0 where
  pub resource : String
  pub rows : Option Json
  pub skill_names : List String
  pub suggestions : Option Json
  pub checks : Option (List SkillCheck)
  pub message : String

-- The effect that runs when a section is chosen, before its `load`.
unfoldable pub choose : String → Tab → Tab
choose resource s = record {
  resource = resource;
  rows = none;
  skill_names = [];
  suggestions = none;
  checks = none;
  message = "";
}

-- Where a `load` stands: it awaits the body with the rows, or the one with the suggestions, or it has ended,
-- or has sent the page to the sign-in page.
pub data Loading : Type 0 where
  rows_body : (selected : String) (suggestions_ok : Bool) → Loading
  suggestions_body : Loading
  ended : Loading
  signed_out : Loading

-- The last line of `load` up to its await.
unfoldable pub look_at_suggestions : (selected : String) (suggestions_ok : Bool) → Tab → Loading
look_at_suggestions selected suggestions_ok s =
    if suggestions_ok && str_eq selected s.resource then suggestions_body else ended

-- What `load` does when its answers are there. `suggestions_ok` is false where none were asked for.
unfoldable pub arrive : (selected : String) (status : ℕ) (suggestions_ok : Bool) → Tab → Loading
unfolding look_at_suggestions
arrive selected status suggestions_ok s =
    if status == 401
    then signed_out
    else if (leb 200 status && ltb status 300) && str_eq selected s.resource
    then rows_body selected suggestions_ok
    else look_at_suggestions selected suggestions_ok s

-- A body is read.
unfoldable pub read_body : Json → Loading → Tab → Tab × Loading
unfolding look_at_suggestions
read_body v (rows_body selected suggestions_ok) s =
    (record s { rows = some v }, look_at_suggestions selected suggestions_ok s)
read_body v suggestions_body s = (record s { suggestions = some v }, ended)
read_body v ended s = (s, ended)
read_body v signed_out s = (s, signed_out)

abbrev as_typed : String → SkillCheck
as_typed input = record { input = input; canonical = none; suggestion = none }

-- The answer of the spelling check: its status and, if that is ok, its list.
abbrev pub read_checks : List String → ℕ → List SkillCheck → List SkillCheck
read_checks names status found =
    if leb 200 status && ltb status 300 then found else map as_typed names

unfoldable pub check_spelling : (status : ℕ) (found : List SkillCheck) → Tab → Tab
check_spelling status found s =
    if length s.skill_names == 0
    then record s { message = "Enter at least one skill." }
    else if status == 401
    then s
    else record s { checks = some (read_checks s.skill_names status found); message = "" }

abbrev accept : SkillCheck → Option String → SkillCheck
accept check none = check
accept check (some better) = record { input = better; canonical = some better; suggestion = none }

-- `suggestion && …`: an empty suggestion is none.
abbrev offered : Option String → Option String
offered none = none
offered (some better) = if str_eq better "" then none else some better

abbrev pub apply_at : ℕ → List SkillCheck → List SkillCheck
apply_at n [] = []
apply_at zero (check ∷ checks) = accept check (offered check.suggestion) ∷ checks
apply_at (suc n) (check ∷ checks) = check ∷ apply_at n checks

abbrev pub apply_checks : ℕ → Option (List SkillCheck) → Option (List SkillCheck)
apply_checks n none = none
apply_checks n (some checks) = some (apply_at n checks)

unfoldable pub apply_suggestion : ℕ → Tab → Tab
apply_suggestion index s = record s { checks = apply_checks index s.checks }

abbrev pub or_input : SkillCheck → Option String → String
or_input check none = check.input
or_input check (some name) = name

-- `check.canonical ?? check.input`
abbrev pub saved_name : SkillCheck → String
saved_name check = or_input check check.canonical

-- What `saveSkills` posts, one after the other.
abbrev pub posted : Option (List SkillCheck) → List String
posted none = []
posted (some checks) = map saved_name checks

-- `saveSkills` with `succeeded name` for what the post of this name answers. `shown` prints a number.
module _ (shown : ℕ → String) (succeeded : String → Bool) where
  unfoldable pub added : Tab → ℕ
  added s = length (keep succeeded (posted s.checks))

  unfoldable pub failed : Tab → ℕ
  unfolding added
  failed s = length (posted s.checks) - added s

  abbrev report : ℕ → Tab → Tab
  report n s =
      if ltb 0 n
      then record s { message = String.◌++◌ (shown n) " skill(s) could not be saved." }
      else s

  unfoldable pub save_skills : Tab → Tab
  unfolding failed
  save_skills s =
      if length (posted s.checks) == 0
      then s
      else report (failed s)
          (if ltb 0 (added s) then record s { skill_names = []; checks = none } else s)

unfoldable pub toggle : String → List String → List String
toggle name current =
    if contains name current
    then keep (λ item. not (str_eq item name)) current
    else current ++ name ∷ []

unfoldable pub toggle_skill : String → Tab → Tab
unfolding toggle
toggle_skill name s = record s { checks = none; skill_names = toggle name s.skill_names }
