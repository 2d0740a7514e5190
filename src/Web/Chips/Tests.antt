-- ===== src/Web/Chips/Tests.antt =====
-- A field of chips that is typed into.
use kall.Common.{◌≡◌, refl, some, List, [], ◌∷◌}
use kall.Web.Chips.{
  Field, Event, typed, commits, backspace, removes, handle, run, hidden_input, csv,
}
use kall.Common.Text.{trim}
use kall.Web.Chips.Texts.{is_free}
use kall.Web.Chips.Hidden.{csv-hidden_input}

abbrev suggested : Field
suggested = record { chips = "QA lead" ∷ []; draft = "" }

abbrev typing : List Event
typing =
    typed " Director, Head of quality ,,"
    ∷ commits
    ∷ typed "QA"
    ∷ commits
    ∷ backspace
    ∷ removes "QA lead"
    ∷ []

what_stands : (run typing suggested).chips ≡ "Director" ∷ "Head of quality" ∷ []
unfolding run handle
what_stands = refl

-- A value with a comma, which a suggestion can have, comes out of the form as two.
comma_splits :
    csv (some (hidden_input (record { chips = "Director, quality" ∷ []; draft = "" })))
    ≡ "Director" ∷ "quality" ∷ []
unfolding csv hidden_input
comma_splits = refl

csv-hidden_input_example :
    csv (some (hidden_input (run typing suggested))) ≡ (run typing suggested).chips
unfolding trim is_free
csv-hidden_input_example = csv-hidden_input typing suggested ((refl, refl, refl), tt)
