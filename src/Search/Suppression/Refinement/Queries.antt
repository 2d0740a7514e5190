-- ===== src/Search/Suppression/Refinement/Queries.antt =====
-- What the result lists are told is hidden, against the meaning of the calls and answers: `isSearchResultHidden`
-- of apps/web/app/lib/searchResultState.ts.
use kall.Common.{
  String, ◌≡◌, refl, sym, ap, ◌∙◌, ◌↔◌, inl, inr, Bool, Bool-cases, true, some, List, [], ◌∷◌,
  arith, str_eq, eq_iff, eq_refl, any, contains,
}
use kall.Common.Text.{before}
use kall.Search.Url.{UrlApi, normalize, match_keys}
use kall.Search.Suppression.{
  HiddenSearchResult, initial, index, is_search_result_hidden, Event, run,
}
use kall.Search.Suppression.Index.{is_search_result_hidden-eq-scan, run-IsIndexed}
use kall.Search.Suppression.Refinement.{
  Hidden, nothing_hidden, entry_of, replay, HidesStable, run-replay,
}

module _ (api : UrlApi) where
  -- An address and a normal form share one of their two spellings.
  abbrev pub shares : String → String → Bool
  shares normalized url =
      any (λ key. contains key (normalized ∷ before b'?' normalized ∷ [])) (match_keys api url)

  -- Something that shares a spelling with the address is hidden.
  abbrev pub IsHidden : Hidden → String → Type 0
  IsHidden hidden url =
      (n : String) × (entry : HiddenSearchResult) × (hidden n ≡ some entry) × (shares n url ≡ true)

  abbrev scan : List HiddenSearchResult → String → Bool
  scan items url = any (λ item. shares (normalize api item.url) url) items

  IsHidden-cons :
      (x : HiddenSearchResult) (xs : List HiddenSearchResult) (url : String)
      → IsHidden (entry_of api xs) url
      → IsHidden (entry_of api (x ∷ xs)) url
  IsHidden-cons x xs url (n, entry, h, k) = elim (Bool-cases (str_eq (normalize api x.url) n)) [
    | inl same ↦ (n, x, rw same refl, k)
    | inr other ↦ (n, entry, rw other h, k)
  ]

  IsHidden-scan :
      (items : List HiddenSearchResult) (url : String)
      → scan items url ≡ true
      → IsHidden (entry_of api items) url
  IsHidden-scan [] url h = cc
  IsHidden-scan (x ∷ xs) url h = elim (Bool-cases (shares (normalize api x.url) url)) [
    | inl here ↦ (normalize api x.url, x, rw (eq_refl (normalize api x.url)) refl, here)
    | inr later ↦ IsHidden-cons x xs url (IsHidden-scan xs url (rw later at h))
  ]

  scan-of_entry :
      (items : List HiddenSearchResult) (url n : String) (entry : HiddenSearchResult)
      → entry_of api items n ≡ some entry
      → shares n url ≡ true
      → scan items url ≡ true
  scan-of_entry [] url n entry h k = cc
  scan-of_entry (x ∷ xs) url n entry h k = elim (Bool-cases (str_eq (normalize api x.url) n)) [
    | inl same ↦
        let equal : normalize api x.url ≡ n = (eq_iff (normalize api x.url) n).0 same in
        rw (ap (λ m. shares m url) equal ∙ k) refl
    | inr other ↦
        rw (scan-of_entry xs url n entry (rw other at h) k)
          (ground (arith, shares (normalize api x.url) url))
  ]

  -- From an empty store, after any calls and answers, an address is reported hidden exactly if it shares
  -- a spelling with a normal form that is hidden by what the calls and answers mean.
  pub IsHidden-iff_replay :
      (es : List (Event api)) (url : String)
      → HidesStable api es
      → (is_search_result_hidden api (run api es initial) url ≡ true)
        ↔ IsHidden (replay api es nothing_hidden) url
  unfolding match_keys index
  IsHidden-iff_replay es url stable =
      let s = run api es initial in
      let held = run-replay api es initial nothing_hidden stable (λ m. refl) in
      let scanned : is_search_result_hidden api s url ≡ scan s.cache url =
        is_search_result_hidden-eq-scan api s url (run-IsIndexed api es initial refl) in
      (
        (λ h.
            let (n, entry, e, k) = IsHidden-scan s.cache url (sym scanned ∙ h) in
            (n, entry, sym (held n) ∙ e, k)),
        (λ (n, entry, e, k). scanned ∙ scan-of_entry s.cache url n entry (held n ∙ e) k),
      )
