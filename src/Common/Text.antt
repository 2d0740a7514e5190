-- ===== src/Common/Text.antt =====
-- The operations on texts that the source takes from the language: `trim`, `split`, `join` and the
-- like, over the characters of a native text.
use Prim.Native.Nat.{ℕ}
use Prim.Native.Char.{Char, code}
use Prim.Native.String
use Prim.Native.String.{String}
use mathlib.Core.Path.{◌≡◌, refl}
use mathlib.Core.Bool.{Bool, true, false, ◌&&◌, ◌||◌}
use mathlib.Core.List.{List, [], ◌∷◌}
use mathlib.Core.Logic.{◌≢◌}
use text.Mathlib.Text.{◌==◌ as str_eq}
use text.Mathlib.TextEquality.{eq_iff}
use kall.Common.Tests.{◌==◌, leb, if◌then◌else◌}

-- White space and line ends, as `String.prototype.trim` and `\s` read them.
unfoldable pub is_space : ℕ → Bool
is_space c =
    c == 32
    || c == 160
    || c == 5760
    || (leb 9 c && leb c 13)
    || (leb 8192 c && leb c 8202)
    || (c == 8232 || c == 8233 || c == 8239 || c == 8287 || c == 12288 || c == 65279)

unfoldable pub trim_start : String → String
unfolding is_space
trim_start String.[] = ""
trim_start (String.◌∷◌ c s) =
    let rest = trim_start s in if is_space (code c) then rest else String.◌∷◌ c s

-- Whether a text holds only white space.
unfoldable pub is_blank : String → Bool
unfolding is_space
is_blank String.[] = true
is_blank (String.◌∷◌ c s) = is_space (code c) && is_blank s

unfoldable pub trim_end : String → String
unfolding is_blank
trim_end String.[] = ""
trim_end (String.◌∷◌ c s) = if is_blank (String.◌∷◌ c s) then "" else String.◌∷◌ c (trim_end s)

unfoldable pub trim : String → String
unfolding trim_start trim_end
trim s = trim_end (trim_start s)

-- `s.split(sep)[0]` for a separator of one character.
unfoldable pub before : ℕ → String → String
before sep String.[] = ""
before sep (String.◌∷◌ c s) = if code c == sep then "" else String.◌∷◌ c (before sep s)

abbrev extend_first : Char → List String → List String
extend_first c [] = (String.◌∷◌ c "") ∷ []
extend_first c (part ∷ parts) = String.◌∷◌ c part ∷ parts

-- `s.split(sep)` for a separator of one character: at least one part.
unfoldable pub split : ℕ → String → List String
split sep String.[] = "" ∷ []
split sep (String.◌∷◌ c s) =
    let parts = split sep s in if code c == sep then "" ∷ parts else extend_first c parts

-- `xs.join(sep)`
unfoldable pub join : String → List String → String
join sep [] = ""
join sep (x ∷ []) = x
join sep (x ∷ (y ∷ ys)) = String.◌++◌ x (String.◌++◌ sep (join sep (y ∷ ys)))

-- `s !== ''`, the truth of a text.
abbrev pub is_nonempty : String → Bool
is_nonempty String.[] = false
is_nonempty (String.◌∷◌ c s) = true

trim_test : trim "  a b \n" ≡ "a b"
unfolding trim
trim_test = refl

split_test : split b',' "a,,b" ≡ "a" ∷ "" ∷ "b" ∷ []
unfolding split
split_test = refl

unfoldable pub has_prefix : String → String → Bool
has_prefix String.[] s = true
has_prefix (String.◌∷◌ c p) String.[] = false
has_prefix (String.◌∷◌ c p) (String.◌∷◌ d s) = code c == code d && has_prefix p s

-- `s.includes(part)`
unfoldable pub includes : String → String → Bool
unfolding has_prefix
includes part String.[] = has_prefix part ""
includes part (String.◌∷◌ c s) = has_prefix part (String.◌∷◌ c s) || includes part s

pub apart : (s t : String) → str_eq s t ≡ false → s ≢ t
apart s t h e = cc (h, (eq_iff s t).1 e)
