-- ===== src/Mobile/Tailoring/Views/Order.antt =====
-- The phone asks the question that the web panel asks, and a letter's text has the kept paragraphs in
-- order: apps/mobile/src/screens/TailoringScreen.tsx.
use kall.Common.{
  ℕ, String, ◌≡◌, sym, ◌∙◌, ap, inl, inr, Bool-cases, true, false, Option, none, some, List, [],
  ◌∷◌, arith, str_eq, if◌then◌else◌, length, keep, find, All,
}
use kall.Common.Text.{has_prefix}
use kall.Common.Sorting
use kall.Common.Sorting.{insert, sort, sort-IsSorted, All-sort, length-sort}
use kall.Mobile.Tailoring.{TailoringChange, CoverLetterChange, CoverLetter, Screen}
use kall.Mobile.Tailoring.Views.{
  rank, comes_before, ordered, current, is_pending, stands_before, is_kept, letter_paragraphs,
}
use kall.Web.Documents as web
use kall.Web.Documents.Questions as questions

-- A suggestion as the two clients have it.
abbrev pub Same : TailoringChange → web.TailoringChange → Type 0
Same a b = (a.id ≡ b.id) × (a.section ≡ b.section) × (a.status ≡ b.status)

abbrev pub AllSame : List TailoringChange → List web.TailoringChange → Type 0
AllSame [] [] = Unit
AllSame (x ∷ xs) (y ∷ ys) = Same x y × AllSame xs ys
AllSame _ _ = ⊥

rank_of : String → ℕ
rank_of section =
    if has_prefix "role:" section then 0 else if str_eq section "summary" then 1 else 2

rank-eq :
    (a : TailoringChange) (b : web.TailoringChange)
    → a.section ≡ b.section
    → rank a ≡ questions.rank b
unfolding rank questions.rank rank_of
rank-eq a b e = ap rank_of e

before-eq :
    (a a' : TailoringChange) (b b' : web.TailoringChange)
    → Same a b
    → Same a' b'
    → comes_before a a' ≡ questions.comes_before b b'
unfolding comes_before questions.comes_before
before-eq a a' b b' (i, s, _) (i', s', _) = ground (arith, i, i', rank-eq a b s, rank-eq a' b' s')

insert-AllSame :
    (x : TailoringChange) (y : web.TailoringChange) (xs : List TailoringChange)
    (ys : List web.TailoringChange)
    → Same x y
    → AllSame xs ys
    → AllSame (insert comes_before x xs) (questions.insert y ys)
unfolding insert questions.insert
insert-AllSame x y [] [] h hs = (h, tt)
insert-AllSame x y [] (b ∷ others) h hs = elim hs [ ]
insert-AllSame x y (a ∷ rest) [] h hs = elim hs [ ]
insert-AllSame x y (a ∷ rest) (b ∷ others) h (k, ks) = elim (Bool-cases (comes_before x a)) [
  | inl first ↦ rw (first, sym (before-eq x a y b h k) ∙ first) (h, (k, ks))
  | inr later ↦
      rw (later, sym (before-eq x a y b h k) ∙ later) (k, insert-AllSame x y rest others h ks)
]

sort-AllSame :
    (xs : List TailoringChange) (ys : List web.TailoringChange)
    → AllSame xs ys
    → AllSame (sort comes_before xs) (questions.ordered ys)
unfolding sort questions.ordered
sort-AllSame [] [] h = tt
sort-AllSame [] (y ∷ ys) h = elim h [ ]
sort-AllSame (x ∷ xs) [] h = elim h [ ]
sort-AllSame (x ∷ xs) (y ∷ ys) (h, hs) =
    insert-AllSame x y (sort comes_before xs) (questions.ordered ys) h (sort-AllSame xs ys hs)

-- The two clients ask about the same suggestion, or both about none.
abbrev pub AsksSame : Option TailoringChange → Option web.TailoringChange → Type 0
AsksSame none none = Unit
AsksSame (some a) (some b) = Same a b
AsksSame _ _ = ⊥

find-AsksSame :
    (xs : List TailoringChange) (ys : List web.TailoringChange)
    → AllSame xs ys
    → AsksSame (find is_pending xs) (find questions.is_pending ys)
find-AsksSame [] [] h = tt
find-AsksSame [] (y ∷ ys) h = elim h [ ]
find-AsksSame (x ∷ xs) [] h = elim h [ ]
find-AsksSame (x ∷ xs) (y ∷ ys) ((i, s, e), hs) = elim (Bool-cases (is_pending x)) [
  | inl now ↦ rw (now, sym (ap (λ t. str_eq t "pending") e) ∙ now) (i, s, e)
  | inr decided ↦
      rw (decided, sym (ap (λ t. str_eq t "pending") e) ∙ decided) (find-AsksSame xs ys hs)
]

-- For the same suggestions, the phone asks next about the one that the web panel asks about, or neither
-- asks.
pub current-AsksSame :
    (s : Screen) (panel : web.Panel)
    → AllSame s.changes panel.tailoring_changes
    → AsksSame (current s) (questions.current panel)
unfolding current questions.current
current-AsksSame s panel h =
    find-AsksSame (ordered s) (questions.ordered panel.tailoring_changes)
      (sort-AllSame s.changes panel.tailoring_changes h)

position_total : (a b : CoverLetterChange) → stands_before a b ≡ false → stands_before b a ≡ true
position_total a b h = ground arith

position_trans :
    (a b c : CoverLetterChange)
    → stands_before a b ≡ true
    → stands_before b c ≡ true
    → stands_before a c ≡ true
position_trans a b c h k = ground arith

keep-pass : (cs : List CoverLetterChange) → All (λ c. is_kept c ≡ true) (keep is_kept cs)
keep-pass [] = tt
keep-pass (c ∷ cs) = elim (Bool-cases (is_kept c)) [
  | inl kept ↦ rw kept (kept, keep-pass cs)
  | inr rejected ↦ rw rejected (keep-pass cs)
]

-- A letter is shared with its paragraphs by position, without the rejected ones and with as many as were
-- not rejected.
pub letter_paragraphs-IsSorted :
    (letter : CoverLetter)
    → Sorting.IsSorted stands_before (letter_paragraphs letter)
      × All (λ c. is_kept c ≡ true) (letter_paragraphs letter)
      × (length (letter_paragraphs letter) ≡ length (keep is_kept letter.changes))
unfolding letter_paragraphs
letter_paragraphs-IsSorted letter = (
  sort-IsSorted stands_before position_total position_trans (keep is_kept letter.changes),
  All-sort stands_before (λ c. is_kept c ≡ true) (keep is_kept letter.changes)
      (keep-pass letter.changes),
  length-sort stands_before (keep is_kept letter.changes),
)
