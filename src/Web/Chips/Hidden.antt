-- ===== src/Web/Chips/Hidden.antt =====
-- The hidden input of a field of chips tells a form which chips stand.
use kall.Common.{
  Char, code, String, ◌≡◌, refl, ap, ◌∙◌, inl, inr, Bool, Bool-cases, true, false, not, some, List,
  [], ◌∷◌, map, arith, ◌==◌, All, All-append, All-keep, keep, contains, str_eq,
}
use kall.Common.Text.{trim, join, is_nonempty}
use kall.Web.Chips.{
  Field, is_separator, extend_first, split_runs, draft_values, commit_draft, without_last, Event,
  typed, commits, backspace, removes, handle, run, hidden_input, csv,
}
use kall.Web.Chips.Texts.{is_free, trim_twice, is_free-trim, split-join}

-- A value that a chip can carry through a form: not empty, no space at its ends, no comma.
abbrev pub IsChip : String → Type 0
IsChip s = (is_nonempty s ≡ true) × (trim s ≡ s) × (is_free b',' s ≡ true)

abbrev IsFree : String → Type 0
IsFree s = is_free b',' s ≡ true

no_comma : (c : Char) → is_separator (code c) ≡ false → not (code c == b',') ≡ true
no_comma c h = ground (arith, h)

extend-IsFree :
    (c : Char)
    → not (code c == b',') ≡ true
    → (parts : List String) → All IsFree parts
    → All IsFree (extend_first c parts)
unfolding is_free
extend-IsFree c h [] hs = (ground (arith, h), tt)
extend-IsFree c h (part ∷ parts) (k, hs) = (ground (arith, h, k), hs)

split_runs-IsFree : (inside : Bool) (s : String) → All IsFree (split_runs inside s)
unfolding split_runs is_free
split_runs-IsFree inside String.[] = (refl, tt)
split_runs-IsFree true (String.◌∷◌ c s) = elim (Bool-cases (is_separator (code c))) [
  | inl cut ↦ rw cut (split_runs-IsFree true s)
  | inr going ↦
      rw going (extend-IsFree c (no_comma c going) (split_runs false s) (split_runs-IsFree false s))
]
split_runs-IsFree false (String.◌∷◌ c s) = elim (Bool-cases (is_separator (code c))) [
  | inl cut ↦ rw cut (refl, split_runs-IsFree true s)
  | inr going ↦
      rw going (extend-IsFree c (no_comma c going) (split_runs false s) (split_runs-IsFree false s))
]

trimmed-IsChip : (xs : List String) → All IsFree xs → All IsChip (keep is_nonempty (map trim xs))
trimmed-IsChip [] h = tt
trimmed-IsChip (x ∷ xs) (h, hs) = elim (Bool-cases (is_nonempty (trim x))) [
  | inl some_text ↦
      rw some_text ((some_text, trim_twice x, is_free-trim b',' x h), trimmed-IsChip xs hs)
  | inr nothing ↦ rw nothing (trimmed-IsChip xs hs)
]

draft_values-IsChip : (draft : String) → All IsChip (draft_values draft)
unfolding draft_values
draft_values-IsChip draft = trimmed-IsChip (split_runs false draft) (split_runs-IsFree false draft)

without_last-IsChip : (xs : List String) → All IsChip xs → All IsChip (without_last xs)
unfolding without_last
without_last-IsChip [] h = tt
without_last-IsChip (x ∷ []) h = tt
without_last-IsChip (x ∷ (y ∷ ys)) (h, hs) = (h, without_last-IsChip (y ∷ ys) hs)

handle-IsChip : (e : Event) (f : Field) → All IsChip f.chips → All IsChip (handle e f).chips
unfolding handle commit_draft
handle-IsChip (typed draft) f h = h
handle-IsChip commits f h =
    All-append IsChip f.chips (keep (λ item. not (contains item f.chips)) (draft_values f.draft)) h
      (All-keep IsChip (λ item. not (contains item f.chips)) (draft_values f.draft)
        (draft_values-IsChip f.draft))
handle-IsChip backspace f h = elim (Bool-cases (is_nonempty f.draft)) [
  | inl some_text ↦ rw some_text h
  | inr nothing ↦ rw nothing (without_last-IsChip f.chips h)
]
handle-IsChip (removes value) f h = All-keep IsChip (λ chip. not (str_eq chip value)) f.chips h

-- Whatever a person types, commits and removes, every chip that stands can be carried through a form, if
-- those that stood at first can.
pub run-IsChip : (es : List Event) (f : Field) → All IsChip f.chips → All IsChip (run es f).chips
unfolding run
run-IsChip [] f h = h
run-IsChip (e ∷ es) f h = run-IsChip es (handle e f) (handle-IsChip e f h)

IsFree-All : (xs : List String) → All IsChip xs → All IsFree xs
IsFree-All [] h = tt
IsFree-All (x ∷ xs) (h, hs) = (h.2, IsFree-All xs hs)

kept_chips : (xs : List String) → All IsChip xs → keep is_nonempty (map trim xs) ≡ xs
kept_chips [] h = refl
kept_chips (x ∷ xs) ((a, b, c), hs) = rw (b, a) (ap (λ zs. x ∷ zs) (kept_chips xs hs))

csv-join : (xs : List String) → All IsChip xs → csv (some (join "," xs)) ≡ xs
unfolding csv join
csv-join [] h = refl
csv-join (x ∷ xs) h =
    ap (λ parts. keep is_nonempty (map trim parts)) (split-join x xs (IsFree-All (x ∷ xs) h))
    ∙ kept_chips (x ∷ xs) h

-- Whatever a person has typed, committed and removed in a field of chips, the form reads from its hidden
-- input the chips that stand, if those that stood at first can be carried through a form.
pub csv-hidden_input :
    (es : List Event) (f : Field)
    → All IsChip f.chips
    → csv (some (hidden_input (run es f))) ≡ (run es f).chips
unfolding hidden_input
csv-hidden_input es f h = csv-join (run es f).chips (run-IsChip es f h)
