-- ===== src/Search/Tokens.antt =====
-- The regular expressions of apps/web/app/lib/searchQuery.ts as scanners, which read a text from the left. A
-- scanner that has matched n characters passes over the next n - 1 of them.
pub mod Scanning
use kall.Common.{
  ℕ, zero, suc, ◌+◌, ◌-◌, Char, code, String, Bool, true, false, not, ◌&&◌, ◌||◌, Option, none,
  some, List, [], ◌∷◌, ltb, leb, ◌==◌, if◌then◌else◌,
}
use Prim.Native.String
use kall.Common.Text.{is_space, trim}

-- `([^…]*)`: the longest prefix of such characters, with its length and what follows.
pub record Span : Type 0 where
  pub taken : String
  pub size : ℕ
  pub rest : String

abbrev pub extend : Char → Span → Span
extend c r = record { taken = String.◌∷◌ c r.taken; size = suc r.size; rest = r.rest }

unfoldable pub span_chars : (ℕ → Bool) → String → Span
span_chars p String.[] = record { taken = ""; size = 0; rest = "" }
span_chars p (String.◌∷◌ c s) =
    let longer = extend c (span_chars p s) in
    if p (code c) then longer else record { taken = ""; size = 0; rest = String.◌∷◌ c s }

abbrev pub is_paren : ℕ → Bool
is_paren c = c == b'(' || c == b')'

abbrev pub is_bare : ℕ → Bool
is_bare c = not (is_space c || is_paren c)

abbrev pub first_is : ℕ → String → Bool
first_is c String.[] = false
first_is c (String.◌∷◌ d s) = code d == c

-- What one match of the expression captures: token[1], or token[2] with token[3] or token[4].
pub data Token : Type 0 where
  grouped : (raw : String) → Token
  single : (negated : Bool) → (raw : String) → Token

-- A match and its length.
abbrev pub Match : Type 0
Match = Option (Token × ℕ)

abbrev pub or_else : Match → Match → Match
or_else none other = other
or_else (some m) other = some m

abbrev pub closed_by : ℕ → (String → Token) → Span → Match
closed_by c token r = if first_is c r.rest then some (token r.taken, r.size + 2) else none

-- `\(([^()]*)\)`
abbrev pub group_at : String → Match
group_at String.[] = none
group_at (String.◌∷◌ c s) =
    if code c == b'(' then closed_by b')' grouped (span_chars (λ d. not (is_paren d)) s) else none

-- `"([^"]*)"`
abbrev pub quoted_at : Bool → String → Match
quoted_at negated String.[] = none
quoted_at negated (String.◌∷◌ c s) =
    if code c == b'"'
    then closed_by b'"' (single negated) (span_chars (λ d. not (d == b'"')) s)
    else none

abbrev pub bare_match : Bool → Span → Match
bare_match negated r = if r.size == 0 then none else some (single negated r.taken, r.size)

-- `([^\s()]+)`
abbrev pub bare_at : Bool → String → Match
bare_at negated s = bare_match negated (span_chars is_bare s)

abbrev pub term_at : Bool → String → Match
term_at negated s = or_else (quoted_at negated s) (bare_at negated s)

abbrev pub longer : Match → Match
longer none = none
longer (some (token, n)) = some (token, suc n)

-- `(-?)(?:…|…)`: the hyphen is given back where nothing matches after it.
abbrev pub negated_at : String → Match
negated_at String.[] = none
negated_at (String.◌∷◌ c s) = if code c == b'-' then longer (term_at true s) else none

abbrev pub token_at : String → Match
token_at s = or_else (group_at s) (or_else (negated_at s) (term_at false s))

-- `value.matchAll(…)`; the number says how many characters to pass over.
unfoldable pub tokens_after : ℕ → String → List Token
unfolding span_chars is_space
tokens_after skip String.[] = []
tokens_after (suc skip) (String.◌∷◌ c s) = tokens_after skip s
tokens_after zero (String.◌∷◌ c s) = elim (token_at (String.◌∷◌ c s)) [
  | none ↦ tokens_after 0 s
  | some (token, n) ↦ token ∷ tokens_after (n - 1) s
]

-- ASCII letters in lower case, as the flag `i` compares them.
abbrev pub low : ℕ → ℕ
low c = if leb b'A' c && leb c b'Z' then c + 32 else c

unfoldable pub has_prefix_ci : String → String → Bool
has_prefix_ci String.[] s = true
has_prefix_ci (String.◌∷◌ p ps) String.[] = false
has_prefix_ci (String.◌∷◌ p ps) (String.◌∷◌ c s) = low (code c) == code p && has_prefix_ci ps s

unfoldable pub drop_chars : ℕ → String → String
drop_chars n String.[] = ""
drop_chars zero (String.◌∷◌ c s) = String.◌∷◌ c s
drop_chars (suc n) (String.◌∷◌ c s) = drop_chars n s

-- The length of `\s+OR\s+` at the head of a text, 0 where it does not match.
abbrev pub or_size : ℕ → String → ℕ
or_size spaces s =
    let after = (span_chars is_space (drop_chars 2 s)).size in
    if has_prefix_ci "or" s && ltb 0 after then spaces + 2 + after else 0

abbrev pub or_at : String → ℕ
or_at s = let r = span_chars is_space s in if r.size == 0 then 0 else or_size r.size r.rest

abbrev pub extend_first : Char → List String → List String
extend_first c [] = (String.◌∷◌ c "") ∷ []
extend_first c (part ∷ parts) = String.◌∷◌ c part ∷ parts

-- `raw.split(/\s+OR\s+/i)`
unfoldable pub split_or : ℕ → String → List String
unfolding span_chars is_space has_prefix_ci drop_chars
split_or skip String.[] = "" ∷ []
split_or (suc skip) (String.◌∷◌ c s) = split_or skip s
split_or zero (String.◌∷◌ c s) =
    let plain = extend_first c (split_or 0 s) in
    let divided = "" ∷ split_or (or_at (String.◌∷◌ c s) - 1) s in
    if or_at (String.◌∷◌ c s) == 0 then plain else divided

abbrev pub is_quote : ℕ → Bool
is_quote c = c == b'"' || c == 39

abbrev pub drop_first_quote : String → String
drop_first_quote String.[] = ""
drop_first_quote (String.◌∷◌ c s) = if is_quote (code c) then s else String.◌∷◌ c s

unfoldable pub drop_last_quote : String → String
drop_last_quote String.[] = ""
drop_last_quote (String.◌∷◌ c String.[]) = if is_quote (code c) then "" else String.◌∷◌ c ""
drop_last_quote (String.◌∷◌ c (String.◌∷◌ d s)) = String.◌∷◌ c (drop_last_quote (String.◌∷◌ d s))

-- `/^(?:site|intitle):/i`, replaced by nothing
abbrev pub drop_operator : String → String
drop_operator s =
    if has_prefix_ci "site:" s
    then drop_chars 5 s
    else if has_prefix_ci "intitle:" s
    then drop_chars 8 s
    else s

unfoldable pub clean_term : String → String
unfolding trim has_prefix_ci drop_chars drop_last_quote
clean_term term = trim (drop_last_quote (drop_first_quote (drop_operator (trim term))))
