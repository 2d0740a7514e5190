-- ===== src/Mobile/Tailoring/Views.antt =====
-- What the tailoring screen derives from its state on every render: apps/mobile/src/screens/
-- TailoringScreen.tsx, `pending` to `currentKind`, the text of a letter, and the labels of sections.
pub mod Order
use kall.Common.{
  ℕ, Bool, String, false, not, ◌&&◌, ◌||◌, Option, none, some, List, str_eq, ltb, leb, ◌==◌,
  if◌then◌else◌, length, keep, find, map,
}
use kall.Common.Text.{has_prefix, join}
use kall.Common.Sorting.{sort}
use kall.Mobile.Tailoring.{
  TailoringChange, TailoringProposal, CoverLetterChange, CoverLetter, Screen,
}
use kall.Mobile.Tailoring.Handlers.{text_or}

abbrev pub is_pending : TailoringChange → Bool
is_pending change = str_eq change.status "pending"

unfoldable pub pending : Screen → ℕ
pending s = length (keep is_pending s.changes)

unfoldable pub rank : TailoringChange → ℕ
unfolding has_prefix
rank change =
    if has_prefix "role:" change.section
    then 0
    else if str_eq change.section "summary"
    then 1
    else 2

-- `rank(a) - rank(b) || a.id - b.id` is not positive.
unfoldable pub comes_before : TailoringChange → TailoringChange → Bool
comes_before a b = ltb (rank a) (rank b) || (rank a == rank b && leb a.id b.id)

unfoldable pub ordered : Screen → List TailoringChange
ordered s = sort comes_before s.changes

unfoldable pub decided : Screen → List TailoringChange
unfolding ordered
decided s = keep (λ change. not (is_pending change)) (ordered s)

unfoldable pub current : Screen → Option TailoringChange
unfolding ordered
current s = find is_pending (ordered s)

pub data Kind : Type 0 where
  role summary experience_bullet achievement : Kind

unfoldable pub current_kind : TailoringChange → Kind
unfolding has_prefix
current_kind change =
    if has_prefix "role:" change.section
    then role
    else if str_eq change.section "summary"
    then summary
    else if str_eq change.section "experience_bullet"
    then experience_bullet
    else achievement

abbrev is_final : Option TailoringProposal → Bool
is_final none = false
is_final (some p) = str_eq p.status "finalized"

unfoldable pub finalized : Screen → Bool
finalized s = is_final s.proposal

-- The tests of the button that finalizes the text.
unfoldable pub can_finalize : Screen → Bool
unfolding pending finalized
can_finalize s =
    not (finalized s)
    && not (ltb 0 (pending s) || elim s.busy [ none ↦ false | some key ↦ str_eq key "finalize" ])

abbrev pub is_kept : CoverLetterChange → Bool
is_kept change = not (str_eq change.status "rejected")

abbrev pub stands_before : CoverLetterChange → CoverLetterChange → Bool
stands_before a b = leb a.position b.position

abbrev pub paragraph : CoverLetterChange → String
paragraph change = text_or change.edited_text change.proposed_text

-- The paragraphs that are kept, by position.
unfoldable pub letter_paragraphs : CoverLetter → List CoverLetterChange
letter_paragraphs letter = sort stands_before (keep is_kept letter.changes)

-- The text that `shareLetterText` shares.
unfoldable pub letter_text : CoverLetter → String
unfolding letter_paragraphs
letter_text letter = join "\n\n" (map paragraph (letter_paragraphs letter))
