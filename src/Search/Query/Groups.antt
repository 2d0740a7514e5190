-- ===== src/Search/Query/Groups.antt =====
-- What the groups of a search text are known to be, and which of them come back when the text that is built from
-- them is read again.
pub mod RoundTrip
pub mod Titles
use kall.Common.{
  String, ◌≡◌, refl, inl, inr, true, false, List, [], ◌∷◌, map, Bool-cases, keep, All, All-append,
  All-mem, keep-All, Memᴰ, contains,
}
use kall.Common.Text.{is_nonempty}
use kall.Search.Tokens.{Token, clean_term, tokens_after}
use kall.Search.Query.{
  SearchGroup, token_terms, distinct, raw_terms, add_group, group_of, add_tokens, parse_query,
  has_terms,
}

-- No two of these are the same, and none is among `seen`.
abbrev pub IsDistinct : List String → List String → Type 0
IsDistinct seen [] = Unit
IsDistinct seen (s ∷ ss) = (contains s seen ≡ false) × IsDistinct (s ∷ seen) ss

distinct-IsDistinct : (seen ss : List String) → IsDistinct seen (distinct seen ss)
unfolding distinct
distinct-IsDistinct seen [] = tt
distinct-IsDistinct seen (s ∷ ss) = elim (Bool-cases (contains s seen)) [
  | inl known ↦ rw known (distinct-IsDistinct seen ss)
  | inr new ↦ rw new (new, distinct-IsDistinct (s ∷ seen) ss)
]

distinct-All {ℓ} :
    (P : String → Type ℓ) (seen ss : List String) → All P ss → All P (distinct seen ss)
unfolding distinct
distinct-All P seen [] h = tt
distinct-All P seen (s ∷ ss) (h, hs) = elim (Bool-cases (contains s seen)) [
  | inl known ↦ rw known (distinct-All P seen ss hs)
  | inr new ↦ rw new (h, distinct-All P (s ∷ seen) ss hs)
]

-- What a group of a parsed text is known to be.
abbrev pub IsClean : SearchGroup → Type 0
IsClean g = (has_terms g ≡ true) × (All (λ t. is_nonempty t ≡ true) g.terms) × IsDistinct [] g.terms

add_group-IsClean :
    (groups : List SearchGroup) (token : Token) (ts : List String)
    → All IsClean groups
    → All (λ t. is_nonempty t ≡ true) ts
    → IsDistinct [] ts
    → All IsClean (add_group groups token ts)
add_group-IsClean groups token [] h k d = h
add_group-IsClean groups token (t ∷ ts) h k d =
    All-append IsClean groups (group_of groups token (t ∷ ts) ∷ []) h ((refl, k, d), tt)

add_tokens-IsClean :
    (groups : List SearchGroup) (tokens : List Token)
    → All IsClean groups
    → All IsClean (add_tokens groups tokens)
unfolding add_tokens token_terms
add_tokens-IsClean groups [] h = h
add_tokens-IsClean groups (token ∷ tokens) h =
    let cleaned : List String = keep is_nonempty (map clean_term (raw_terms token)) in
    add_tokens-IsClean (add_group groups token (token_terms token)) tokens (
      add_group-IsClean groups token (token_terms token) h
        (distinct-All (λ t. is_nonempty t ≡ true) [] cleaned
          (keep-All is_nonempty (map clean_term (raw_terms token))))
        (distinct-IsDistinct [] cleaned))

-- Whatever text is read, each of its groups has a term, and the terms of a group are not empty and are distinct.
pub parse_query-IsClean :
    (value : String) (g : SearchGroup) → Memᴰ g (parse_query value) → IsClean g
unfolding parse_query
parse_query-IsClean value g m =
    All-mem IsClean (parse_query value) (add_tokens-IsClean [] (tokens_after 0 value) tt) m
