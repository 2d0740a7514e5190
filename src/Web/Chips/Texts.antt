-- ===== src/Web/Chips/Texts.antt =====
-- What trimming and splitting do to the characters of a text.
use kall.Common.{
  ℕ, Char, code, String, ◌≡◌, refl, ap, ◌∙◌, inl, inr, Bool, Bool-cases, true, not, ◌&&◌, List, [],
  ◌∷◌, arith, ◌==◌, All,
}
use Prim.Native.String
use text.Mathlib.TextLemmas.{nil-append, cons-append}
use kall.Common.Text.{is_space, is_blank, trim, trim_start, trim_end, split, join}

-- A text without a separator.
unfoldable pub is_free : ℕ → String → Bool
is_free sep String.[] = true
is_free sep (String.◌∷◌ c s) = not (code c == sep) && is_free sep s

is_blank_empty : is_blank "" ≡ true
unfolding is_blank
is_blank_empty = refl

is_blank-cons :
    (c : Char) (s t : String)
    → is_blank s ≡ is_blank t
    → is_blank (String.◌∷◌ c s) ≡ is_blank (String.◌∷◌ c t)
unfolding is_blank
is_blank-cons c s t h = ap (λ b. is_space (code c) && b) h

is_blank-trim_end : (s : String) → is_blank (trim_end s) ≡ is_blank s
unfolding trim_end
is_blank-trim_end String.[] = refl
is_blank-trim_end (String.◌∷◌ c s) = elim (Bool-cases (is_blank (String.◌∷◌ c s))) [
  | inl blank ↦ rw blank refl
  | inr dark ↦ rw dark (is_blank-cons c (trim_end s) s (is_blank-trim_end s) ∙ dark)
]

trim_end_twice : (s : String) → trim_end (trim_end s) ≡ trim_end s
unfolding trim_end
trim_end_twice String.[] = refl
trim_end_twice (String.◌∷◌ c s) = elim (Bool-cases (is_blank (String.◌∷◌ c s))) [
  | inl blank ↦ rw blank refl
  | inr dark ↦
      rw (dark, is_blank-cons c (trim_end s) s (is_blank-trim_end s) ∙ dark)
        (ap (String.◌∷◌ c) (trim_end_twice s))
]

-- A text that is empty or starts with a character that is no space.
unfoldable starts_dark : String → Bool
unfolding is_space
starts_dark String.[] = true
starts_dark (String.◌∷◌ c s) = not (is_space (code c))

starts_dark-trim_start : (s : String) → starts_dark (trim_start s) ≡ true
unfolding starts_dark trim_start
starts_dark-trim_start String.[] = refl
starts_dark-trim_start (String.◌∷◌ c s) = ground (arith, starts_dark-trim_start s)

starts_dark-trim_end : (s : String) → starts_dark s ≡ true → starts_dark (trim_end s) ≡ true
unfolding starts_dark trim_end is_blank
starts_dark-trim_end String.[] h = refl
starts_dark-trim_end (String.◌∷◌ c s) h = ground (arith, h)

trim_start_dark : (s : String) → starts_dark s ≡ true → trim_start s ≡ s
unfolding starts_dark trim_start
trim_start_dark String.[] h = refl
trim_start_dark (String.◌∷◌ c s) h = ground (arith, h)

pub trim_twice : (s : String) → trim (trim s) ≡ trim s
unfolding trim
trim_twice s =
    ap trim_end (
      trim_start_dark (trim_end (trim_start s))
        (starts_dark-trim_end (trim_start s) (starts_dark-trim_start s)))
    ∙ trim_end_twice (trim_start s)

is_free-trim_start :
    (sep : ℕ) (s : String) → is_free sep s ≡ true → is_free sep (trim_start s) ≡ true
unfolding is_free trim_start
is_free-trim_start sep String.[] h = refl
is_free-trim_start sep (String.◌∷◌ c s) h = ground (arith, h, is_free-trim_start sep s)

is_free-trim_end : (sep : ℕ) (s : String) → is_free sep s ≡ true → is_free sep (trim_end s) ≡ true
unfolding is_free trim_end
is_free-trim_end sep String.[] h = refl
is_free-trim_end sep (String.◌∷◌ c s) h = elim (Bool-cases (is_blank (String.◌∷◌ c s))) [
  | inl blank ↦ rw blank refl
  | inr dark ↦ rw dark (ground (arith, h, is_free-trim_end sep s))
]

pub is_free-trim : (sep : ℕ) (s : String) → is_free sep s ≡ true → is_free sep (trim s) ≡ true
unfolding trim
is_free-trim sep s h = is_free-trim_end sep (trim_start s) (is_free-trim_start sep s h)

split_free : (sep : ℕ) (s : String) → is_free sep s ≡ true → split sep s ≡ s ∷ []
unfolding is_free split
split_free sep String.[] h = refl
split_free sep (String.◌∷◌ c s) h = ground (arith, h, split_free sep s)

split_comma : (t : String) → split b',' (String.◌++◌ "," t) ≡ "" ∷ split b',' t
unfolding split
split_comma t = ap (split b',') (cons-append "," "" t ∙ ap (String.◌∷◌ ",") (nil-append t))

split-cons :
    (c : Char) (s x : String) (parts : List String)
    → not (code c == b',') ≡ true
    → split b',' s ≡ x ∷ parts
    → split b',' (String.◌∷◌ c s) ≡ String.◌∷◌ c x ∷ parts
unfolding split
split-cons c s x parts h k = ground (arith, h, k)

-- The first part of a text before a comma.
split-append :
    (s t : String)
    → is_free b',' s ≡ true
    → split b',' (String.◌++◌ s (String.◌++◌ "," t)) ≡ s ∷ split b',' t
unfolding is_free
split-append String.[] t h = ap (split b',') (nil-append (String.◌++◌ "," t)) ∙ split_comma t
split-append (String.◌∷◌ c s) t h =
    ap (split b',') (cons-append c s (String.◌++◌ "," t))
    ∙ split-cons c (String.◌++◌ s (String.◌++◌ "," t)) s (split b',' t) (ground (arith, h))
        (split-append s t (ground (arith, h)))

-- Texts without commas that are joined by commas are the parts of the whole, if there is one.
pub split-join :
    (x : String) (xs : List String)
    → All (λ s. is_free b',' s ≡ true) (x ∷ xs)
    → split b',' (join "," (x ∷ xs)) ≡ x ∷ xs
unfolding join
split-join x [] (h, _) = split_free b',' x h
split-join x (y ∷ ys) (h, hs) =
    split-append x (join "," (y ∷ ys)) h ∙ ap (λ zs. x ∷ zs) (split-join y ys hs)
