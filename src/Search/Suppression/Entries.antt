-- ===== src/Search/Suppression/Entries.antt =====
-- What hiding and restoring a result do to the entries of the cache.
use kall.Common.{
  String, ◌≡◌, refl, sym, ap, ◌∙◌, ◌≢◌, true, Option, some, List, [], ◌∷◌, ◌++◌, arith, eq_iff,
  eq_refl, keep, All, All-append, All-keep, contains,
}
use mathlib.Core.List.{append_assoc}
use kall.Common.Text.{before}
use kall.Search.Url.{UrlApi, normalize, normal, match_keys}
use kall.Search.Suppression.{
  SuppressionReason, HiddenSearchResult, Store, index, differs, is_search_result_hidden,
  hide_search_result, restore_search_result,
}

module _ (api : UrlApi) where
  -- Normalising a second time changes nothing.
  abbrev pub IsStable : String → Type 0
  IsStable url = normalize api (normalize api url) ≡ normalize api url

  normal-eq-set_hash : (u : api.Url) → normal api u ≡ api.set_hash u ""
  unfolding normal
  normal-eq-set_hash u =
      let bare = api.set_hash u "" in
      ap (λ v. api.set_host v (api.lower (api.host v))) (api.set_protocol-lower bare)
      ∙ api.set_host-lower bare

  normal-normal : (u : api.Url) → normal api (normal api u) ≡ normal api u
  normal-normal u =
      normal-eq-set_hash (normal api u)
      ∙ ap (λ v. api.set_hash v "") (normal-eq-set_hash u)
      ∙ api.set_hash_twice u
      ∙ sym (normal-eq-set_hash u)

  -- What the platform's URL type parses is stable: no fragment is left and the rest is as it was.
  pub normalize-IsStable : (url : String) (u : api.Url) → api.parse url ≡ some u → IsStable url
  unfolding normalize
  normalize-IsStable url u h =
      rw h (rw (api.parse-to_string (normal api u)) (ap api.to_string (normal-normal u)))

  -- No entry of the cache has this normal form.
  abbrev pub IsAbsent : String → List HiddenSearchResult → Type 0
  IsAbsent normalized items = All (λ item. normalize api item.url ≢ normalized) items

  abbrev pub HasDistinct : List HiddenSearchResult → Type 0
  HasDistinct [] = Unit
  HasDistinct (item ∷ items) = IsAbsent (normalize api item.url) items × HasDistinct items

  keep-IsAbsent :
      (normalized : String) (items : List HiddenSearchResult)
      → IsAbsent normalized (keep (differs api normalized) items)
  unfolding differs
  keep-IsAbsent normalized [] = tt
  keep-IsAbsent normalized (item ∷ items) =
      ground (arith, eq_iff (normalize api item.url) normalized, keep-IsAbsent normalized items)

  keep_of_IsAbsent :
      (normalized : String) (items : List HiddenSearchResult)
      → IsAbsent normalized items
      → keep (differs api normalized) items ≡ items
  unfolding differs
  keep_of_IsAbsent normalized [] h = refl
  keep_of_IsAbsent normalized (item ∷ items) h =
      ground (arith, eq_iff (normalize api item.url) normalized, keep_of_IsAbsent normalized items)

  -- An entry put last is taken away again, and it alone.
  keep-append_last :
      (normalized : String) (items : List HiddenSearchResult) (entry : HiddenSearchResult)
      → IsAbsent normalized items
      → normalize api entry.url ≡ normalized
      → keep (differs api normalized) (items ++ entry ∷ []) ≡ items
  unfolding differs
  keep-append_last normalized [] entry h e = rw (e, eq_refl)
  keep-append_last normalized (item ∷ items) entry (h, hs) e = ground (
    arith,
    eq_iff (normalize api item.url) normalized,
    keep-append_last normalized items entry hs e,
  )

  keep-All_distinct :
      (normalized other : String) (items : List HiddenSearchResult)
      → IsAbsent other items
      → IsAbsent other (keep (differs api normalized) items)
  keep-All_distinct normalized other items h =
      All-keep (λ item. normalize api item.url ≢ other) (differs api normalized) items h

  keep-HasDistinct :
      (normalized : String) (items : List HiddenSearchResult)
      → HasDistinct items
      → HasDistinct (keep (differs api normalized) items)
  keep-HasDistinct normalized [] h = tt
  keep-HasDistinct normalized (item ∷ items) (here, rest) = ground (
    arith,
    keep-All_distinct normalized (normalize api item.url) items here,
    keep-HasDistinct normalized items rest,
  )

  HasDistinct-append :
      (items : List HiddenSearchResult) (entry : HiddenSearchResult)
      → HasDistinct items
      → IsAbsent (normalize api entry.url) items
      → HasDistinct (items ++ entry ∷ [])
  HasDistinct-append [] entry h k = (tt, tt)
  HasDistinct-append (item ∷ items) entry (here, rest) (k, ks) = (
    All-append (λ i. normalize api i.url ≢ normalize api item.url) items (entry ∷ []) here
        ((λ e. k (sym e)), tt),
    HasDistinct-append items entry rest ks,
  )

  module _ (url : String) (title : Option String) (reason : SuppressionReason) (now : String)
      (s : Store) where
    abbrev after_hide : Store
    after_hide = hide_search_result api url title reason now s

    -- Hiding an address keeps one entry for each normal form.
    pub hide-HasDistinct : IsStable url → HasDistinct s.cache → HasDistinct after_hide.cache
    unfolding hide_search_result
    hide-HasDistinct stable h =
        HasDistinct-append (keep (differs api (normalize api url)) s.cache) _
          (keep-HasDistinct (normalize api url) s.cache h)
          (rw stable (keep-IsAbsent (normalize api url) s.cache))

    -- Restoring an address right after hiding it gives the cache back, if it was not hidden before.
    pub restore-hide :
        IsStable url
        → IsAbsent (normalize api url) s.cache
        → (restore_search_result api url after_hide).cache ≡ s.cache
    unfolding hide_search_result restore_search_result
    restore-hide stable absent =
        let n = normalize api url in
        rw (keep_of_IsAbsent n s.cache absent) (keep-append_last n s.cache _ absent stable)

  -- Restoring leaves no entry with the address' normal form, and one entry for each of the others.
  pub restore-IsAbsent :
      (url : String) (s : Store)
      → HasDistinct s.cache
      → IsAbsent (normalize api url) (restore_search_result api url s).cache
        × HasDistinct (restore_search_result api url s).cache
  unfolding restore_search_result
  restore-IsAbsent url s h =
      (keep-IsAbsent (normalize api url) s.cache, keep-HasDistinct (normalize api url) s.cache h)

  index-append :
      (xs ys : List HiddenSearchResult) → index api (xs ++ ys) ≡ index api xs ++ index api ys
  unfolding index
  index-append [] ys = refl
  index-append (x ∷ xs) ys =
      rw (index-append xs ys)
        (sym (append_assoc (match_keys api x.url) (index api xs) (index api ys)))

  contains-index_last :
      (key : String) (items : List HiddenSearchResult) (entry : HiddenSearchResult)
      → key ≡ before b'?' (normalize api entry.url)
      → contains key (index api (items ++ entry ∷ [])) ≡ true
  unfolding index match_keys
  contains-index_last key [] entry e = rw (e, eq_refl) (ground arith)
  contains-index_last key (item ∷ items) entry e =
      ground (arith, contains-index_last key items entry e)

  -- After a link is hidden, every address that has its normal form up to the query is reported
  -- hidden: the link itself, and the same posting with or without a query string.
  pub hide-covers_queries :
      (url other : String) (title : Option String) (reason : SuppressionReason) (now : String)
      (s : Store)
      → IsStable url
      → before b'?' (normalize api other) ≡ before b'?' (normalize api url)
      → is_search_result_hidden api (hide_search_result api url title reason now s) other ≡ true
  unfolding hide_search_result is_search_result_hidden index match_keys
  hide-covers_queries url other title reason now s stable same =
      let n = normalize api url in
      ground (
        arith,
        contains-index_last (before b'?' (normalize api other)) (keep (differs api n) s.cache)
            (record { url = n; title = title; reason = reason; suppressed_at = now })
            (same ∙ ap (before b'?') (sym stable)),
      )
