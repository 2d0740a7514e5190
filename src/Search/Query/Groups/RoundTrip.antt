-- ===== src/Search/Query/Groups/RoundTrip.antt =====
-- Groups of one term: the text that is built from them is read back as the same groups.
use kall.Common.{
  ℕ, suc, ◌+◌, Char, code, String, ◌≡◌, refl, sym, ap, ◌∙◌, Bool, true, false, not, some, List, [],
  ◌∷◌, ◌++◌, map, arith, ◌==◌, if◌then◌else◌, length, keep, All, length-append,
}
use Prim.Native.String
use mathlib.Core.List.{append_assoc}
use text.Mathlib.TextLemmas.{nil-append, cons-append, append-nil, append_assoc as text_append_assoc}
use kall.Common.Text.{is_nonempty, join}
use kall.Common.Decimal.{decimal}
use kall.Search.Tokens.{Token, single, tokens_after, token_at, quoted_at, clean_term, has_prefix_ci}
use kall.Search.Query.{
  SearchGroup, token_terms, token_label, add_group, add_tokens, parse_query, has_terms, build_query,
  built_group, built_term, unquoted,
}
use kall.Search.Tokens.Scanning.{size, all_chars, span_chars-append, tokens_after-append}

-- A term of the page, and whether it is excluded.
pub record Simple : Type 0 where
  pub negated : Bool
  pub term : String

abbrev pub not_quote : ℕ → Bool
not_quote c = not (c == b'"')

-- A term that reading leaves as it is, without quotes and search operators.
abbrev pub IsPlain : Simple → Type 0
IsPlain e =
    (all_chars not_quote e.term ≡ true)
    × (clean_term e.term ≡ e.term)
    × (is_nonempty e.term ≡ true)
    × (has_prefix_ci "site:" e.term ≡ false)
    × (has_prefix_ci "intitle:" e.term ≡ false)

abbrev pub label_of : Bool → String
label_of negated = if negated then "Excluded terms" else "Search terms"

abbrev pub group_for : ℕ → Simple → SearchGroup
group_for n e = record {
  id = String.◌++◌ "query-" (decimal n);
  label = label_of e.negated;
  terms = e.term ∷ [];
}

-- The groups of these terms, numbered from n.
abbrev pub numbered : ℕ → List Simple → List SearchGroup
numbered n [] = []
numbered n (e ∷ es) = group_for n e ∷ numbered (suc n) es

pub unquoted-plain : (t : String) → all_chars not_quote t ≡ true → unquoted t ≡ t
unfolding unquoted
unquoted-plain String.[] h = refl
unquoted-plain (String.◌∷◌ c t) h =
    let here : (code c == b'"') ≡ false = ground arith in
    rw here (ap (String.◌∷◌ c) (unquoted-plain t (ground arith)))

-- What is built for a term, before `s`.
abbrev signed : Bool → String → String
signed false s = s
signed true s = String.◌∷◌ "-" s

abbrev quoted_before : Bool → String → String → String
quoted_before negated t s = signed negated (String.◌∷◌ "\"" (String.◌++◌ t (String.◌∷◌ "\"" s)))

pub tokens_after-match :
    (c : Char) (s : String) (token : Token) (n : ℕ)
    → token_at (String.◌∷◌ c s) ≡ some (token, suc n)
    → tokens_after 0 (String.◌∷◌ c s) ≡ token ∷ tokens_after n s
unfolding tokens_after
tokens_after-match c s token n e =
    rw (tokens_after, e) (ap (λ k. token ∷ tokens_after k s) (omega arith))

quoted_at-quoted :
    (negated : Bool) (t s : String)
    → all_chars not_quote t ≡ true
    → quoted_at negated (quoted_before false t s) ≡ some (single negated t, suc (size t + 1))
quoted_at-quoted negated t s h =
    rw (span_chars-append not_quote t (String.◌∷◌ "\"" s) h refl)
      (ap (λ k. some (single negated t, k)) (omega arith))

token_at-quoted :
    (negated : Bool) (t s : String)
    → all_chars not_quote t ≡ true
    → token_at (quoted_before negated t s)
      ≡ some (single negated t, suc (size t + (if negated then 2 else 1)))
token_at-quoted false t s h = rw (quoted_at-quoted false t s h) refl
token_at-quoted true t s h =
    rw (quoted_at-quoted true t s h) (ap (λ k. some (single true t, k)) (omega arith))

after_one : (c : Char) (s : String) → tokens_after 1 (String.◌∷◌ c s) ≡ tokens_after 0 s
unfolding tokens_after
after_one c s = refl

after_suc :
    (n : ℕ) (c : Char) (s : String) → tokens_after (suc n) (String.◌∷◌ c s) ≡ tokens_after n s
unfolding tokens_after
after_suc n c s = refl

-- The scanner reads what is built for a term as one token.
tokens_after-quoted :
    (negated : Bool) (t s : String)
    → all_chars not_quote t ≡ true
    → tokens_after 0 (quoted_before negated t s) ≡ single negated t ∷ tokens_after 0 s
tokens_after-quoted false t s h =
    tokens_after-match "\"" (String.◌++◌ t (String.◌∷◌ "\"" s)) (single false t) (size t + 1)
      (token_at-quoted false t s h)
    ∙ ap (λ ts. single false t ∷ ts)
        (tokens_after-append t (String.◌∷◌ "\"" s) 1 ∙ after_one "\"" s)
tokens_after-quoted true t s h =
    tokens_after-match "-" (quoted_before false t s) (single true t) (size t + 2)
      (token_at-quoted true t s h)
    ∙ ap (λ ts. single true t ∷ ts)
        (ap (λ k. tokens_after k (quoted_before false t s)) (omega arith)
          ∙ after_suc (size t + 1) "\"" (String.◌++◌ t (String.◌∷◌ "\"" s))
          ∙ tokens_after-append t (String.◌∷◌ "\"" s) 1
          ∙ after_one "\"" s)

pub tokens_after-space : (s : String) → tokens_after 0 (String.◌∷◌ " " s) ≡ tokens_after 0 s
unfolding tokens_after
tokens_after-space s = refl

pub quote_append : (s : String) → String.◌++◌ "\"" s ≡ String.◌∷◌ "\"" s
quote_append s = cons-append "\"" "" s ∙ ap (String.◌∷◌ "\"") (nil-append s)

hyphen_append : (s : String) → String.◌++◌ "-" s ≡ String.◌∷◌ "-" s
hyphen_append s = cons-append "-" "" s ∙ ap (String.◌∷◌ "-") (nil-append s)

built_before :
    (negated : Bool) (t s : String)
    → all_chars not_quote t ≡ true
    → String.◌++◌ (built_term (label_of negated) t) s ≡ quoted_before negated t s
built_before false t s h =
    rw (unquoted-plain t h) (simp (text_append_assoc, nil-append, cons-append, quote_append))
built_before true t s h =
    rw (unquoted-plain t h) (simp (text_append_assoc, cons-append, quote_append, hyphen_append))

char_space : (s : String) → String.◌++◌ " " s ≡ String.◌∷◌ " " s
char_space s = cons-append " " "" s ∙ ap (String.◌∷◌ " ") (nil-append s)

pub no_tokens : tokens_after 0 "" ≡ []
unfolding tokens_after
no_tokens = refl

abbrev built_of : Simple → String
built_of e = built_term (label_of e.negated) e.term

abbrev token_of : Simple → Token
token_of e = single e.negated e.term

-- The scanner reads what is built for the terms as one token for each.
tokens_after-built :
    (es : List Simple)
    → All IsPlain es
    → tokens_after 0 (join " " (map built_of es)) ≡ map token_of es
unfolding join
tokens_after-built [] h = no_tokens
tokens_after-built (e ∷ []) (h, hs) =
    ap (tokens_after 0) (sym (append-nil (built_of e)) ∙ built_before e.negated e.term "" (h.0))
    ∙ tokens_after-quoted e.negated e.term "" (h.0)
    ∙ ap (λ ts. token_of e ∷ ts) no_tokens
tokens_after-built (e ∷ (f ∷ es)) (h, hs) =
    let rest : String = join " " (map built_of (f ∷ es)) in
    ap (tokens_after 0) (built_before e.negated e.term (String.◌++◌ " " rest) (h.0))
    ∙ tokens_after-quoted e.negated e.term (String.◌++◌ " " rest) (h.0)
    ∙ ap (λ ts. token_of e ∷ ts)
        (ap (tokens_after 0) (char_space rest)
          ∙ tokens_after-space rest
          ∙ tokens_after-built (f ∷ es) hs)

token_terms-plain : (e : Simple) → IsPlain e → token_terms (token_of e) ≡ e.term ∷ []
unfolding token_terms
token_terms-plain e (q, c, n, s', i) = rw (c, n) refl

token_label-plain : (e : Simple) → IsPlain e → token_label (token_of e) ≡ label_of e.negated
unfolding token_label
token_label-plain e (q, c, n, s', i) = rw (s', i) refl

pub add_tokens-nil : (groups : List SearchGroup) → add_tokens groups [] ≡ groups
unfolding add_tokens
add_tokens-nil groups = refl

pub add_tokens-cons :
    (groups : List SearchGroup) (token : Token) (tokens : List Token)
    → add_tokens groups (token ∷ tokens)
      ≡ add_tokens (add_group groups token (token_terms token)) tokens
unfolding add_tokens
add_tokens-cons groups token tokens = refl

append_nil : (groups : List SearchGroup) → groups ≡ groups ++ []
append_nil [] = refl
append_nil (g ∷ groups) = ap (λ gs. g ∷ gs) (append_nil groups)

add_group-plain :
    (groups : List SearchGroup) (e : Simple)
    → IsPlain e
    → add_group groups (token_of e) (token_terms (token_of e))
      ≡ groups ++ group_for (length groups) e ∷ []
add_group-plain groups e h =
    ap (add_group groups (token_of e)) (token_terms-plain e h)
    ∙ ap
        (λ l.
          groups
          ++ record {
            id = String.◌++◌ "query-" (decimal (length groups));
            label = l;
            terms = e.term ∷ [];
          }
            ∷ [])
        (token_label-plain e h)

length_last :
    (groups : List SearchGroup) (g : SearchGroup) → length (groups ++ g ∷ []) ≡ suc (length groups)
length_last groups g = omega (arith, length-append groups (g ∷ []))

-- The tokens of plain terms become their groups, numbered after those that are there.
add_tokens-plain :
    (es : List Simple) (groups : List SearchGroup)
    → All IsPlain es
    → add_tokens groups (map token_of es) ≡ groups ++ numbered (length groups) es
add_tokens-plain [] groups h = add_tokens-nil groups ∙ append_nil groups
add_tokens-plain (e ∷ es) groups (h, hs) =
    let g : SearchGroup = group_for (length groups) e in
    add_tokens-cons groups (token_of e) (map token_of es)
    ∙ ap (λ gs. add_tokens gs (map token_of es)) (add_group-plain groups e h)
    ∙ add_tokens-plain es (groups ++ g ∷ []) hs
    ∙ ap (λ n. (groups ++ g ∷ []) ++ numbered n es) (length_last groups g)
    ∙ append_assoc groups (g ∷ []) (numbered (suc (length groups)) es)

built_of-numbered :
    (n : ℕ) (es : List Simple) → map built_group (keep has_terms (numbered n es)) ≡ map built_of es
built_of-numbered n [] = refl
built_of-numbered n (e ∷ es) = ap (λ ts. built_of e ∷ ts) (built_of-numbered (suc n) es)

-- Groups of one plain term each, searched for or excluded, come back as they were when the text that is
-- built from them is read again.
pub parse_query-build_query :
    (es : List Simple) → All IsPlain es → parse_query (build_query (numbered 0 es)) ≡ numbered 0 es
unfolding parse_query build_query
parse_query-build_query es h =
    ap (λ parts. add_tokens [] (tokens_after 0 (join " " parts))) (built_of-numbered 0 es)
    ∙ ap (add_tokens []) (tokens_after-built es h)
    ∙ add_tokens-plain es [] h
