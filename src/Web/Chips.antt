-- ===== src/Web/Chips.antt =====
-- The chips of the web forms: apps/web/app/components/ChipsInput.tsx and ChipsToggle.tsx, which put their
-- values into a hidden input that the forms read by `csv` of apps/web/app/onboarding/page.tsx.
pub mod Texts
pub mod Hidden
pub mod Tests
use kall.Common.{
  ℕ, Char, code, String, Bool, true, false, not, ◌||◌, Option, none, some, List, [], ◌∷◌, ◌++◌, map,
  str_eq, ◌==◌, if◌then◌else◌, keep, contains,
}
use Prim.Native.String
use kall.Common.Text.{trim, split, join, is_nonempty}

-- A field of chips: those that stand, and the text that is typed for the next.
pub record Field : Type 0 where
  pub chips : List String
  pub draft : String

abbrev pub is_separator : ℕ → Bool
is_separator c = c == b',' || c == b'\n'

abbrev pub extend_first : Char → List String → List String
extend_first c [] = (String.◌∷◌ c "") ∷ []
extend_first c (part ∷ parts) = String.◌∷◌ c part ∷ parts

-- `draft.split(/[,\n]+/)`: `inside` says that a run of separators has begun.
unfoldable pub split_runs : (inside : Bool) → String → List String
split_runs inside String.[] = "" ∷ []
split_runs inside (String.◌∷◌ c s) =
    let run = split_runs true s in
    let rest = split_runs false s in
    if is_separator (code c) then (if inside then run else "" ∷ run) else extend_first c rest

-- The values of a draft: `.map((item) => item.trim()).filter(Boolean)`
unfoldable pub draft_values : String → List String
unfolding split_runs trim
draft_values draft = keep is_nonempty (map trim (split_runs false draft))

unfoldable pub commit_draft : Field → Field
unfolding draft_values
commit_draft f = record {
  chips = f.chips ++ keep (λ item. not (contains item f.chips)) (draft_values f.draft);
  draft = "";
}

-- `current.slice(0, -1)`
unfoldable pub without_last : List String → List String
without_last [] = []
without_last (x ∷ []) = []
without_last (x ∷ (y ∷ ys)) = x ∷ without_last (y ∷ ys)

abbrev without : String → List String → List String
without value chips = keep (λ chip. not (str_eq chip value)) chips

-- What a person does to a field: they type, press Enter or a comma or leave the field, press Backspace,
-- or press a chip's button.
pub data Event : Type 0 where
  typed : (draft : String) → Event
  commits backspace : Event
  removes : (value : String) → Event

unfoldable pub handle : Event → Field → Field
unfolding commit_draft without_last
handle (typed draft) f = record f { draft = draft }
handle commits f = commit_draft f
handle backspace f = if is_nonempty f.draft then f else record f { chips = without_last f.chips }
handle (removes value) f = record f { chips = without value f.chips }

unfoldable pub run : List Event → Field → Field
run [] f = f
run (e ∷ es) f = run es (handle e f)

-- The value of the hidden input.
unfoldable pub hidden_input : Field → String
unfolding join
hidden_input f = join "," f.chips

-- `toggle` of ChipsToggle
unfoldable pub toggle : String → List String → List String
toggle value current =
    if contains value current then without value current else current ++ value ∷ []

abbrev csv_text : String → List String
csv_text value = keep is_nonempty (map trim (split b',' value))

-- `csv` of a form's value
unfoldable pub csv : Option String → List String
unfolding trim split
csv none = csv_text ""
csv (some value) = csv_text value
