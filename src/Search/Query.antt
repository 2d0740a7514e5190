-- ===== src/Search/Query.antt =====
-- The search text that the page shows as groups of terms, apps/web/app/lib/searchQuery.ts, over the scanners of its
-- regular expressions.
pub mod Groups
pub mod Tests
use kall.Common.{
  code, String, Bool, true, false, List, [], ◌∷◌, ◌++◌, map, str_eq, ◌==◌, if◌then◌else◌, length,
  keep, contains,
}
use Prim.Native.String
use kall.Common.Text.{is_space, join, is_nonempty}
use kall.Search.Tokens.{
  Token, clean_term, grouped, has_prefix_ci, single, span_chars, split_or, tokens_after,
}
use kall.Common.Decimal.{decimal}

pub record SearchGroup : Type 0 where
  pub id : String
  pub label : String
  pub terms : List String

-- `[...new Set(…)]`, after the texts of `seen`
unfoldable pub distinct : List String → List String → List String
distinct seen [] = []
distinct seen (s ∷ rest) =
    let kept = s ∷ distinct (s ∷ seen) rest in
    let dropped = distinct seen rest in if contains s seen then dropped else kept

abbrev pub raw_terms : Token → List String
raw_terms (grouped raw) = split_or 0 raw
raw_terms (single negated raw) = raw ∷ []

unfoldable pub token_terms : Token → List String
unfolding split_or clean_term distinct
token_terms token = distinct [] (keep is_nonempty (map clean_term (raw_terms token)))

abbrev starts_with : String → Token → Bool
starts_with operator (grouped raw) = has_prefix_ci operator (span_chars is_space raw).rest
starts_with operator (single negated raw) = has_prefix_ci operator raw

abbrev is_negated : Token → Bool
is_negated (grouped raw) = false
is_negated (single negated raw) = negated

unfoldable pub token_label : Token → String
unfolding has_prefix_ci span_chars is_space
token_label token =
    if is_negated token
    then "Excluded terms"
    else if starts_with "site:" token
    then "Sites"
    else if starts_with "intitle:" token
    then "Job titles"
    else "Search terms"

abbrev pub group_of : List SearchGroup → Token → List String → SearchGroup
group_of groups token terms = record {
  id = String.◌++◌ "query-" (decimal (length groups));
  label = token_label token;
  terms = terms;
}

-- `groups` after one more token; a token without terms is passed over.
abbrev pub add_group : List SearchGroup → Token → List String → List SearchGroup
add_group groups token [] = groups
add_group groups token (t ∷ ts) = groups ++ group_of groups token (t ∷ ts) ∷ []

unfoldable pub add_tokens : List SearchGroup → List Token → List SearchGroup
unfolding decimal token_label token_terms
add_tokens groups [] = groups
add_tokens groups (token ∷ tokens) = add_tokens (add_group groups token (token_terms token)) tokens

unfoldable pub parse_query : String → List SearchGroup
unfolding tokens_after add_tokens
parse_query value = add_tokens [] (tokens_after 0 value)

-- `term.replace(/"/g, '')`
unfoldable pub unquoted : String → String
unquoted String.[] = ""
unquoted (String.◌∷◌ c s) =
    let rest = unquoted s in if code c == b'"' then rest else String.◌∷◌ c rest

abbrev in_quotes : String → String
in_quotes s = String.◌++◌ "\"" (String.◌++◌ s "\"")

abbrev pub built_term : (label : String) → String → String
built_term label term =
    if str_eq label "Sites"
    then String.◌++◌ "site:" (unquoted term)
    else if str_eq label "Job titles"
    then String.◌++◌ "intitle:" (in_quotes (unquoted term))
    else String.◌++◌ (if str_eq label "Excluded terms" then "-" else "") (in_quotes (unquoted term))

abbrev one_or_many : List String → String
one_or_many (term ∷ []) = term
one_or_many terms = String.◌++◌ "(" (String.◌++◌ (join " OR " terms) ")")

abbrev pub built_group : SearchGroup → String
built_group group = one_or_many (map (built_term group.label) group.terms)

abbrev is_some_list : List String → Bool
is_some_list [] = false
is_some_list (t ∷ ts) = true

-- `group.terms.length`, as a condition
abbrev pub has_terms : SearchGroup → Bool
has_terms group = is_some_list group.terms

unfoldable pub build_query : List SearchGroup → String
unfolding join unquoted
build_query groups = join " " (map built_group (keep has_terms groups))
