-- ===== src/Search/Query/Tests.antt =====
-- The search text on concrete queries.
use kall.Common.{◌≡◌, refl, true, false, List, [], ◌∷◌, All, Memᴰ}
use kall.Common.Text.{is_space}
use kall.Search.Tokens.{clean_term, has_prefix_ci}
use kall.Search.Query.{SearchGroup, parse_query, build_query}
use kall.Search.Tokens.Scanning.{all_chars}
use kall.Search.Query.Groups.RoundTrip.{Simple, numbered, IsPlain, parse_query-build_query}
use kall.Search.Query.Groups.Titles.{is_word, closed, title_group, title_splits}

-- The examples of apps/web/usability-tests/flow.spec.ts, and what the expression makes of odd texts.
rebuilt :
    build_query (parse_query "site:jobs.lever.co \"Quality Engineering\" -intern")
    ≡ "site:jobs.lever.co \"Quality Engineering\" -\"intern\""
unfolding build_query parse_query
rebuilt = refl

odd_text :
    parse_query "(intitle:\"QA\" or  \"SDET\" OR QA) - ("
    ≡ record { id = "query-0"; label = "Job titles"; terms = "QA" ∷ "SDET" ∷ [] }
      ∷ record { id = "query-1"; label = "Search terms"; terms = "-" ∷ [] }
      ∷ []
unfolding parse_query
odd_text = refl

abbrev alternatives : SearchGroup
alternatives = record { id = "query-0"; label = "Search terms"; terms = "QA" ∷ "SDET" ∷ [] }

alternatives_found : Memᴰ alternatives (parse_query "(QA OR SDET or QA)")
unfolding parse_query
alternatives_found = Memᴰ.head refl

abbrev plain_terms : List Simple
plain_terms =
    record { negated = false; term = "Quality (QA)" }
    ∷ record { negated = true; term = "intern" }
    ∷ []

plain_terms-IsPlain : All IsPlain plain_terms
unfolding clean_term has_prefix_ci
plain_terms-IsPlain = ((refl, refl, refl, refl, refl), ((refl, refl, refl, refl, refl), tt))

parse_query-build_query_example :
    parse_query (build_query (numbered 0 plain_terms)) ≡ numbered 0 plain_terms
parse_query-build_query_example = parse_query-build_query plain_terms plain_terms-IsPlain

words : (all_chars is_word "Quality" ≡ true) × (all_chars is_word "Engineer" ≡ true)
unfolding is_space
words = (refl, refl)

no_operators :
    (has_prefix_ci "site:" (closed "Engineer") ≡ false)
    × (has_prefix_ci "intitle:" (closed "Engineer") ≡ false)
unfolding has_prefix_ci
no_operators = (refl, refl)

title_splits_example :
    parse_query (build_query (title_group "query-0" "Quality Engineer" ∷ []))
    ≡ title_group "query-0" "Quality"
      ∷ record { id = "query-1"; label = "Search terms"; terms = "Engineer" ∷ [] }
      ∷ []
title_splits_example =
    title_splits "query-0" "Quality" "E" "ngineer" refl (words.0) (words.1) refl (no_operators.0)
      (no_operators.1)
