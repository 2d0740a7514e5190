-- ===== src/Search/Tokens/Scanning.antt =====
-- How the scanners pass over a word.
use kall.Common.{
  ℕ, suc, ◌+◌, Char, code, String, ◌≡◌, refl, ap, ◌∙◌, Bool, true, false, not, ◌&&◌, arith,
}
use Prim.Native.String
use text.Mathlib.TextLemmas.{nil-append, cons-append}
use kall.Common.Text.{is_space, trim, trim_start, trim_end, is_blank}
use kall.Search.Tokens.{Span, extend, span_chars, tokens_after, is_bare}

abbrev pub size : String → ℕ
size String.[] = 0
size (String.◌∷◌ c s) = suc (size s)

abbrev pub all_chars : (ℕ → Bool) → String → Bool
all_chars p String.[] = true
all_chars p (String.◌∷◌ c s) = p (code c) && all_chars p s

-- Whether a text ends here or goes on with another kind of character.
abbrev pub stops : (ℕ → Bool) → String → Bool
stops p String.[] = true
stops p (String.◌∷◌ c s) = not (p (code c))

abbrev pub span_of : String → String → Span
span_of w s = record { taken = w; size = size w; rest = s }

span_chars-stop : (p : ℕ → Bool) (s : String) → stops p s ≡ true → span_chars p s ≡ span_of "" s
unfolding span_chars
span_chars-stop p String.[] h = refl
span_chars-stop p (String.◌∷◌ c s) h = ground arith

pub span_chars-append :
    (p : ℕ → Bool) (w s : String)
    → all_chars p w ≡ true
    → stops p s ≡ true
    → span_chars p (String.◌++◌ w s) ≡ span_of w s
unfolding span_chars
span_chars-append p String.[] s h k = ap (span_chars p) (nil-append s) ∙ span_chars-stop p s k
span_chars-append p (String.◌∷◌ c w) s h k =
    let here : p (code c) ≡ true = ground arith in
    let further : all_chars p w ≡ true = ground arith in
    rw (cons-append c w s, here) (ap (extend c) (span_chars-append p w s further k))

-- The scanner passes over a text whose length it is told.
pub tokens_after-append :
    (w s : String) (n : ℕ) → tokens_after (size w + n) (String.◌++◌ w s) ≡ tokens_after n s
unfolding tokens_after
tokens_after-append String.[] s n =
    ap (λ k. tokens_after k (String.◌++◌ "" s)) (omega arith) ∙ ap (tokens_after n) (nil-append s)
tokens_after-append (String.◌∷◌ c w) s n =
    ap (λ k. tokens_after k (String.◌++◌ (String.◌∷◌ c w) s)) (size-cons (size w) n)
    ∙ ap (tokens_after (suc (size w + n))) (cons-append c w s)
    ∙ tokens_after-append w s n
  where
    size-cons : (k m : ℕ) → suc k + m ≡ suc (k + m)
    size-cons k m = omega arith

-- A text with nothing but other characters is not trimmed.
all_chars-not_space :
    (c : Char) (w : String) → all_chars is_bare (String.◌∷◌ c w) ≡ true → is_space (code c) ≡ false
all_chars-not_space c w h = ground arith

trim_start-word : (w : String) → all_chars is_bare w ≡ true → trim_start w ≡ w
unfolding trim_start
trim_start-word String.[] h = refl
trim_start-word (String.◌∷◌ c w) h = rw (all_chars-not_space c w h) refl

is_blank-word :
    (c : Char) (w : String)
    → all_chars is_bare (String.◌∷◌ c w) ≡ true
    → is_blank (String.◌∷◌ c w) ≡ false
unfolding is_blank
is_blank-word c w h = rw (all_chars-not_space c w h) refl

pub trim_end-word : (w : String) → all_chars is_bare w ≡ true → trim_end w ≡ w
unfolding trim_end
trim_end-word String.[] h = refl
trim_end-word (String.◌∷◌ c w) h =
    rw (is_blank-word c w h) (ap (String.◌∷◌ c) (trim_end-word w (ground arith)))

pub trim-word : (w : String) → all_chars is_bare w ≡ true → trim w ≡ w
unfolding trim
trim-word w h = ap trim_end (trim_start-word w h) ∙ trim_end-word w h

pub all_chars-append :
    (p : ℕ → Bool) (v w : String) → all_chars p (String.◌++◌ v w) ≡ (all_chars p v && all_chars p w)
all_chars-append p String.[] w = ap (all_chars p) (nil-append w)
all_chars-append p (String.◌∷◌ c v) w =
    ap (all_chars p) (cons-append c v w) ∙ ground (arith, all_chars-append p v w)
