-- ===== src/Search/Suppression/Index.antt =====
-- The lookup index of the hidden results: it follows the cache through every operation, and the query
-- answers as a scan of the cache would.
use kall.Common.{
  String, ◌≡◌, refl, ap, ◌∙◌, Bool, false, ◌||◌, List, [], ◌∷◌, arith, str_eq, any, any-append,
  contains,
}
use kall.Common.Text.{before}
use kall.Search.Url.{UrlApi, normalize, match_keys}
use kall.Search.Suppression.{
  HiddenSearchResult, Store, index, step, run, Event, call_load, settled, call_hide, call_restore,
  call_restore_all, is_search_result_hidden,
}

-- Two texts are the same link to the lists: they share one of their two spellings.
abbrev pub covers : UrlApi → String → String → Bool
covers api flagged url = any (λ key. contains key (match_keys api flagged)) (match_keys api url)

module _ (api : UrlApi) where
  abbrev pub IsIndexed : Store → Type 0
  IsIndexed s = s.keys ≡ index api s.cache

  contains-index :
      (key : String) (items : List HiddenSearchResult)
      → contains key (index api items) ≡ any (λ item. contains key (match_keys api item.url)) items
  unfolding index
  contains-index key [] = refl
  contains-index key (item ∷ items) =
      any-append (λ k. str_eq k key) (match_keys api item.url) (index api items)
      ∙ ap (λ b. contains key (match_keys api item.url) || b) (contains-index key items)

  -- Both spellings are looked up in turn; a scan takes the entries in turn.
  any_swap :
      (k j : String) (items : List HiddenSearchResult)
      → (any (λ item. contains k (match_keys api item.url)) items
          || (any (λ item. contains j (match_keys api item.url)) items || false))
        ≡ any
            (λ item.
              contains k (match_keys api item.url)
              || (contains j (match_keys api item.url) || false))
            items
  any_swap k j [] = refl
  any_swap k j (item ∷ items) = ground (arith, any_swap k j items)

  -- Where the index follows the cache, a result is reported hidden exactly when some entry of the
  -- cache covers its address.
  pub is_search_result_hidden-eq-scan :
      (s : Store) (url : String)
      → IsIndexed s
      → is_search_result_hidden api s url ≡ any (λ item. covers api item.url url) s.cache
  unfolding is_search_result_hidden match_keys
  is_search_result_hidden-eq-scan s url h =
      simp (h, contains-index)
        (any_swap (normalize api url) (before b'?' (normalize api url)) s.cache)

  step-IsIndexed : (e : Event api) (s : Store) → IsIndexed s → IsIndexed (step api e s)
  unfolding step
  step-IsIndexed call_load s h = ground arith
  step-IsIndexed (settled r) s h = ground arith
  step-IsIndexed (call_hide url title reason now) s h = ground arith
  step-IsIndexed (call_restore url) s h = ground arith
  step-IsIndexed call_restore_all s h = ground arith

  -- After any calls and answers, in any order, the index follows the cache, if it did at the start.
  pub run-IsIndexed : (es : List (Event api)) (s : Store) → IsIndexed s → IsIndexed (run api es s)
  unfolding run
  run-IsIndexed [] s h = h
  run-IsIndexed (e ∷ es) s h = run-IsIndexed es (step api e s) (step-IsIndexed e s h)
