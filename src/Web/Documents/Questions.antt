-- ===== src/Web/Documents/Questions.antt =====
-- The order in which the documents panel asks about the suggestions: every role's gaps, then the summary,
-- then the rest, each by identifier.
pub mod Next
use kall.Common.{
  ℕ, ◌-◌, Bool, not, ◌&&◌, ◌||◌, Option, List, [], ◌∷◌, str_eq, ltb, leb, ◌==◌, if◌then◌else◌,
  length, keep, find,
}
use kall.Common.Text.{has_prefix}
use kall.Web.Documents.{TailoringChange, Panel}

-- `rank`
unfoldable pub rank : TailoringChange → ℕ
unfolding has_prefix
rank change =
    if has_prefix "role:" change.section
    then 0
    else if str_eq change.section "summary"
    then 1
    else 2

-- `rank(a) - rank(b) || a.id - b.id` is not positive.
unfoldable pub comes_before : TailoringChange → TailoringChange → Bool
comes_before a b = ltb (rank a) (rank b) || (rank a == rank b && leb a.id b.id)

unfoldable pub insert : TailoringChange → List TailoringChange → List TailoringChange
insert x [] = x ∷ []
insert x (y ∷ ys) = if comes_before x y then x ∷ (y ∷ ys) else y ∷ insert x ys

-- The language's stable sort by that comparison.
unfoldable pub ordered : List TailoringChange → List TailoringChange
ordered [] = []
ordered (x ∷ xs) = insert x (ordered xs)

abbrev pub is_pending : TailoringChange → Bool
is_pending change = str_eq change.status "pending"

unfoldable pub decided : Panel → List TailoringChange
decided s = keep (λ change. not (is_pending change)) (ordered s.tailoring_changes)

-- The question that is asked next.
unfoldable pub current : Panel → Option TailoringChange
current s = find is_pending (ordered s.tailoring_changes)

unfoldable pub pending_count : Panel → ℕ
pending_count s = length (ordered s.tailoring_changes) - length (decided s)

pub data Kind : Type 0 where
  role summary experience_bullet achievement : Kind

-- `currentKind` of a question
unfoldable pub kind : TailoringChange → Kind
unfolding has_prefix
kind change =
    if has_prefix "role:" change.section
    then role
    else if str_eq change.section "summary"
    then summary
    else if str_eq change.section "experience_bullet"
    then experience_bullet
    else achievement
