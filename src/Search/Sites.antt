-- ===== src/Search/Sites.antt =====
-- Terms that are typed and the queries for the sites of a profile: the functions that stand before the component
-- of apps/web/app/search/SearchTab.tsx.
use kall.Common.{String, Bool, true, false, not, List, [], ◌∷◌, ◌++◌, map, if◌then◌else◌, keep}
use Prim.Native.String
use kall.Common.Text.{trim, split, is_nonempty}
use kall.Search.Tokens.{drop_first_quote, drop_last_quote, drop_chars, has_prefix_ci}
use kall.Search.Query.{SearchGroup}

pub record SiteDomain : Type 0 where
  pub provider : String
  pub domain : String

pub record SiteQuery : Type 0 where
  pub provider : String
  pub domain : String
  pub query : String

-- `cleanTerm`
unfoldable pub clean_added : String → String
unfolding trim has_prefix_ci drop_chars drop_last_quote
clean_added value =
    let trimmed = trim value in
    trim (
      drop_last_quote (
        drop_first_quote (if has_prefix_ci "site:" trimmed then drop_chars 5 trimmed else trimmed)))

-- `value.split(/[,\n]+/)`; the empty parts between two of them are filtered later.
abbrev pub parts : String → List String
parts value = concat (map (split 10) (split b',' value))
  where
    concat : List (List String) → List String
    concat [] = []
    concat (xs ∷ xss) = xs ++ concat xss

abbrev pub or_whole : String → List String → List String
or_whole value [] = if is_nonempty (trim value) then trim value ∷ [] else []
or_whole value (t ∷ ts) = t ∷ ts

unfoldable pub split_new_terms : String → List String
unfolding clean_added trim split
split_new_terms value = or_whole value (keep is_nonempty (map clean_added (parts value)))

abbrev pub solo_query : String → List SiteQuery
solo_query query =
    if is_nonempty query then record { provider = ""; domain = ""; query = query } ∷ [] else []

abbrev pub site_query : String → SiteDomain → SiteQuery
site_query intent site = record {
  provider = site.provider;
  domain = site.domain;
  query = trim (String.◌++◌ "site:" (String.◌++◌ site.domain (String.◌++◌ " " intent)));
}

abbrev pub no_domains : List SiteDomain → Bool
no_domains [] = true
no_domains (d ∷ ds) = false

abbrev pub no_groups : List SearchGroup → Bool
no_groups [] = true
no_groups (g ∷ gs) = false

unfoldable pub site_queries_for : List SiteDomain → String → List SiteQuery
unfolding trim
site_queries_for domains intent =
    if not (is_nonempty intent)
    then []
    else if no_domains domains
    then solo_query intent
    else map (site_query intent) domains
