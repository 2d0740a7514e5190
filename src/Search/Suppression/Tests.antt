-- ===== src/Search/Suppression/Tests.antt =====
-- The hidden results at concrete inputs, over a URL type that is a text with its fragment cut off.
use kall.Common.{
  ℕ, code, String, ◌≡◌, refl, ap, inl, inr, ◌↔◌, true, false, none, some, List, [], ◌∷◌, ◌==◌,
  Bool-cases,
}
use kall.Common.Text.{before}
use kall.Common.Http.{failed}
use kall.Search.Url.{UrlApi, normalize, normal}
use kall.Search.Suppression.{
  dead_link, hidden, initial, Event, call_load, settled, call_hide, call_restore, run,
  is_search_result_hidden, hide_search_result, restore_search_result, index,
}
use kall.Search.Suppression.Index.{IsIndexed, run-IsIndexed}
use kall.Search.Suppression.Entries.{IsStable, normalize-IsStable, hide-covers_queries}
use kall.Search.Suppression.Refinement.{nothing_hidden, replay}
use kall.Search.Suppression.Refinement.Queries.{IsHidden, IsHidden-iff_replay}

pub before-before : (sep : ℕ) (s : String) → before sep (before sep s) ≡ before sep s
unfolding before
before-before sep String.[] = refl
before-before sep (String.◌∷◌ c s) = elim (Bool-cases (code c == sep)) [
  | inl cut ↦ rw cut
  | inr going ↦ rw (going, going) (ap (String.◌∷◌ c) (before-before sep s))
]

abbrev pub plain_urls : UrlApi
plain_urls = record {
  Url = String;
  parse = some;
  to_string = λ u. u;
  protocol = λ _. "https:";
  host = λ _. "";
  set_hash = λ u _. before b'#' u;
  set_protocol = λ u _. u;
  set_host = λ u _. u;
  lower = λ s. s;
  parse-to_string = λ u. refl;
  set_protocol-lower = λ u. refl;
  set_host-lower = λ u. refl;
  set_hash_twice = before-before b'#';
}

abbrev pub posting : String
posting = "https://jobs.example/1?src=kall#top"

abbrev script : List (Event plain_urls)
script =
    call_load
    ∷ call_load
    ∷ call_hide posting none dead_link "now"
    ∷ settled failed
    ∷ call_load
    ∷ call_restore "https://jobs.example/1"
    ∷ []

pub posting-IsStable : IsStable plain_urls posting
posting-IsStable = normalize-IsStable plain_urls posting posting refl

-- The posting is shown as hidden without its query too, and is back when it is restored.
hidden_both_ways :
    (is_search_result_hidden plain_urls (run plain_urls script initial) "https://jobs.example/1"
      ≡ true)
    × (is_search_result_hidden plain_urls
          (restore_search_result plain_urls posting (run plain_urls script initial))
          posting
        ≡ false)
unfolding run is_search_result_hidden restore_search_result normalize
hidden_both_ways = (refl, refl)

initial-IsIndexed : IsIndexed plain_urls initial
unfolding index
initial-IsIndexed = refl

run-IsIndexed_example : IsIndexed plain_urls (run plain_urls script initial)
run-IsIndexed_example = run-IsIndexed plain_urls script initial initial-IsIndexed

hide-covers_queries_example :
    is_search_result_hidden plain_urls
      (hide_search_result plain_urls posting none hidden "now" initial)
      "https://jobs.example/1?a=b"
    ≡ true
unfolding before normal normalize
hide-covers_queries_example =
    hide-covers_queries plain_urls posting "https://jobs.example/1?a=b" none hidden "now" initial
      posting-IsStable refl

IsHidden-iff_replay_example :
    (is_search_result_hidden plain_urls (run plain_urls script initial) "https://jobs.example/1"
      ≡ true)
    ↔ IsHidden plain_urls (replay plain_urls script nothing_hidden) "https://jobs.example/1"
IsHidden-iff_replay_example =
    IsHidden-iff_replay plain_urls script "https://jobs.example/1" (posting-IsStable, tt)
