-- ===== src/Search/Suppression.antt =====
-- The cache of hidden results of apps/web/app/lib/searchResultState.ts: its state, every operation that
-- changes it, and the query that the result lists ask. The proofs are in the modules below.
pub mod Index
pub mod Entries
pub mod Hydration
pub mod Refinement
pub mod Tests
use kall.Common.{
  ℕ, String, Bool, true, false, not, Option, none, some, List, [], ◌∷◌, ◌++◌, str_eq, ◌==◌,
  if◌then◌else◌, length, any, keep, contains,
}
use kall.Common.Http.{Fetched, failed, answered, is_ok}
use kall.Search.Url.{UrlApi, normalize, match_keys}

pub data SuppressionReason : Type 0 where
  dead_link applied_external applied_kall not_relevant hidden : SuppressionReason

pub record HiddenSearchResult : Type 0 where
  pub url : String
  pub title : Option String
  pub reason : SuppressionReason
  pub suppressed_at : String

-- What leaves the module: the event on `window`, the requests, and the redirect to the sign-in page.
pub data Effect : Type 0 where
  results_changed : Effect
  get_suppressed : Effect
  post_suppressed : String → Option String → SuppressionReason → Effect
  delete_suppressed : String → Effect
  delete_all_suppressed : Effect
  to_sign_in : Effect

-- The module's variables; `hydration` says whether the promise is set. `effects` is what has left
-- the module, in order.
pub record Store : Type 0 where
  pub cache : List HiddenSearchResult
  pub keys : List String
  pub hydration : Bool
  pub effects : List Effect

abbrev pub initial : Store
initial = record { cache = []; keys = []; hydration = false; effects = [] }

abbrev pub emit : Effect → Store → Store
emit e s = record s { effects = s.effects ++ e ∷ [] }

module _ (api : UrlApi) where
  unfoldable pub index : List HiddenSearchResult → List String
  index [] = []
  index (item ∷ items) = match_keys api item.url ++ index items

  -- `reindex`, after the cache has been set
  unfoldable pub reindex : List HiddenSearchResult → Store → Store
  unfolding index
  reindex cache s = emit results_changed (record s { cache = cache; keys = index cache })

  -- `loadSuppressedResults` up to its `await`
  unfoldable pub load : Store → Store
  load s = if s.hydration then s else emit get_suppressed (record s { hydration = true })

  -- `response.json()` into the cache; a body that does not parse ends in the `catch`.
  abbrev pub hydrate : Option (List HiddenSearchResult) → Store → Store
  hydrate none s = record s { hydration = false }
  hydrate (some items) s = reindex items s

  -- The rest of it, when the request has settled.
  unfoldable pub settle : Fetched (List HiddenSearchResult) → Store → Store
  unfolding reindex
  settle failed s = record s { hydration = false }
  settle (answered status body) s =
      if status == 401 then emit to_sign_in s else if is_ok status then hydrate body s else s

  unfoldable pub is_search_result_hidden : Store → String → Bool
  unfolding match_keys
  is_search_result_hidden s url = any (λ key. contains key s.keys) (match_keys api url)

  -- `normalize(item.url) !== normalized`
  unfoldable pub differs : String → HiddenSearchResult → Bool
  differs normalized item = not (str_eq (normalize api item.url) normalized)

  unfoldable pub hide_search_result :
      String → Option String → SuppressionReason → (now : String) → Store → Store
  unfolding reindex differs
  hide_search_result url title reason now s =
      let normalized = normalize api url in
      let entry : HiddenSearchResult = record {
        url = normalized;
        title = title;
        reason = reason;
        suppressed_at = now;
      } in
      emit (post_suppressed normalized title reason)
        (reindex (keep (differs normalized) s.cache ++ entry ∷ []) s)

  unfoldable pub restore_search_result : String → Store → Store
  unfolding reindex differs
  restore_search_result url s =
      let normalized = normalize api url in
      emit (delete_suppressed normalized) (reindex (keep (differs normalized) s.cache) s)

  unfoldable pub restore_hidden_search_results : Store → Store
  unfolding reindex
  restore_hidden_search_results s = emit delete_all_suppressed (reindex [] s)

  -- One call of the module, or one answer to its request.
  pub data Event : Type 0 where
    call_load : Event
    settled : Fetched (List HiddenSearchResult) → Event
    call_hide : String → Option String → SuppressionReason → String → Event
    call_restore : String → Event
    call_restore_all : Event

  unfoldable pub step : Event → Store → Store
  unfolding load settle hide_search_result restore_search_result restore_hidden_search_results
  step call_load s = load s
  step (settled r) s = settle r s
  step (call_hide url title reason now) s = hide_search_result url title reason now s
  step (call_restore url) s = restore_search_result url s
  step call_restore_all s = restore_hidden_search_results s

  unfoldable pub run : List Event → Store → Store
  unfolding step
  run [] s = s
  run (e ∷ es) s = run es (step e s)

abbrev pub hidden_search_result_count : Store → ℕ
hidden_search_result_count s = length s.cache

abbrev is_dead_link : SuppressionReason → Bool
is_dead_link dead_link = true
is_dead_link _ = false

abbrev pub dead_link_count : Store → ℕ
dead_link_count s = length (keep (λ item. is_dead_link item.reason) s.cache)
