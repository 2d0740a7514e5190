-- ===== src/Search/Suppression/Refinement.antt =====
-- The hidden results as a map from normal forms to entries, which forgets the cache's order and its index,
-- and that the module of apps/web/app/lib/searchResultState.ts implements it.
pub mod Queries
use kall.Common.{
  String, ◌≡◌, refl, Option, none, some, List, [], ◌∷◌, ◌++◌, arith, str_eq, eq_iff, ◌==◌, keep,
  find, if◌then◌else◌,
}
use kall.Common.Http.{Fetched, failed, answered, is_ok}
use kall.Search.Url.{UrlApi, normalize}
use kall.Search.Suppression.{
  SuppressionReason, HiddenSearchResult, Store, differs, Event, call_load, settled, call_hide,
  call_restore, call_restore_all, step, run,
}
use kall.Search.Suppression.Entries.{IsStable}

-- What is hidden: an entry for each normal form that is.
abbrev pub Hidden : Type 0
Hidden = String → Option HiddenSearchResult

abbrev pub nothing_hidden : Hidden
nothing_hidden normalized = none

module _ (api : UrlApi) where
  -- The entry of a list for a normal form.
  abbrev pub entry_of : List HiddenSearchResult → Hidden
  entry_of items normalized = find (λ item. str_eq (normalize api item.url) normalized) items

  abbrev hide : String → HiddenSearchResult → Hidden → Hidden
  hide normalized entry hidden other = if str_eq normalized other then some entry else hidden other

  abbrev restore : String → Hidden → Hidden
  restore normalized hidden other = if str_eq normalized other then none else hidden other

  abbrev received : Fetched (List HiddenSearchResult) → Hidden → Hidden
  received failed hidden = hidden
  received (answered status none) hidden = hidden
  received (answered status (some items)) hidden =
      if status == 401 then hidden else if is_ok status then entry_of items else hidden

  -- What each call and each answer means.
  unfoldable pub meaning : Event api → Hidden → Hidden
  meaning call_load hidden = hidden
  meaning (settled r) hidden = received r hidden
  meaning (call_hide url title reason now) hidden =
      let normalized = normalize api url in
      hide normalized
        (record { url = normalized; title = title; reason = reason; suppressed_at = now }) hidden
  meaning (call_restore url) hidden = restore (normalize api url) hidden
  meaning call_restore_all hidden = nothing_hidden

  unfoldable pub replay : List (Event api) → Hidden → Hidden
  replay [] hidden = hidden
  replay (e ∷ es) hidden = replay es (meaning e hidden)

  -- Every address that is hidden is stable under the normal form.
  abbrev pub HidesStable : List (Event api) → Type 0
  HidesStable [] = Unit
  HidesStable (call_hide url title reason now ∷ es) = IsStable api url × HidesStable es
  HidesStable (_ ∷ es) = HidesStable es

  entry_of-keep :
      (n m : String) (items : List HiddenSearchResult)
      → entry_of (keep (differs api n) items) m ≡ restore n (entry_of items) m
  unfolding differs
  entry_of-keep n m [] = ground arith
  entry_of-keep n m (x ∷ xs) = ground (
    arith,
    entry_of-keep n m xs,
    eq_iff (normalize api x.url) n,
    eq_iff (normalize api x.url) m,
    eq_iff n m,
  )

  entry_of-append :
      (m : String) (items : List HiddenSearchResult) (entry : HiddenSearchResult)
      → entry_of (items ++ entry ∷ []) m
        ≡ elim (entry_of items m) [ some x ↦ some x | none ↦ entry_of (entry ∷ []) m ]
  entry_of-append m [] entry = refl
  entry_of-append m (x ∷ xs) entry = ground (arith, entry_of-append m xs entry)

  entry_of-hide :
      (n m : String) (items : List HiddenSearchResult) (entry : HiddenSearchResult)
      → normalize api entry.url ≡ n
      → entry_of (keep (differs api n) items ++ entry ∷ []) m ≡ hide n entry (entry_of items) m
  entry_of-hide n m items entry e =
      ground
        (arith, entry_of-append m (keep (differs api n) items) entry, entry_of-keep n m items, e)

  -- The store holds what is hidden.
  abbrev pub Holds : Store → Hidden → Type 0
  Holds s hidden = (m : String) → entry_of s.cache m ≡ hidden m

  received-Holds :
      (r : Fetched (List HiddenSearchResult)) (s : Store) (hidden : Hidden)
      → Holds s hidden
      → Holds (step api (settled r) s) (received r hidden)
  unfolding step
  received-Holds failed s hidden h m = h m
  received-Holds (answered status none) s hidden h m = ground (arith, h m)
  received-Holds (answered status (some items)) s hidden h m = ground (arith, h m)

  restore-Holds :
      (url : String) (s : Store) (hidden : Hidden)
      → Holds s hidden
      → Holds (step api (call_restore url) s) (restore (normalize api url) hidden)
  unfolding step
  restore-Holds url s hidden h m = ground (arith, entry_of-keep (normalize api url) m s.cache, h m)

  hide-Holds :
      (url : String) (title : Option String) (reason : SuppressionReason) (now : String) (s : Store)
      (hidden : Hidden)
      → IsStable api url
      → Holds s hidden
      → Holds
          (step api (call_hide url title reason now) s)
          (meaning (call_hide url title reason now) hidden)
  unfolding step meaning
  hide-Holds url title reason now s hidden stable h m =
      let n = normalize api url in
      let entry : HiddenSearchResult = record {
        url = n;
        title = title;
        reason = reason;
        suppressed_at = now;
      } in
      ground (arith, entry_of-hide n m s.cache entry stable, h m)

  load-Holds : (s : Store) (hidden : Hidden) → Holds s hidden → Holds (step api call_load s) hidden
  unfolding step
  load-Holds s hidden h m = ground (arith, h m)

  restore_all-Holds : (s : Store) → Holds (step api call_restore_all s) nothing_hidden
  unfolding step
  restore_all-Holds s m = refl

  -- Any calls and answers, in any order, do to the cache what they mean for what is hidden: a normal
  -- form has the entry that it was hidden with last, or that the list from the server gave it.
  pub run-replay :
      (es : List (Event api)) (s : Store) (hidden : Hidden)
      → HidesStable es
      → Holds s hidden
      → Holds (run api es s) (replay es hidden)
  unfolding run replay meaning
  run-replay [] s hidden k h = h
  run-replay (call_load ∷ es) s hidden k h =
      run-replay es (step api call_load s) hidden k (load-Holds s hidden h)
  run-replay (settled r ∷ es) s hidden k h =
      run-replay es (step api (settled r) s) (received r hidden) k (received-Holds r s hidden h)
  run-replay (call_hide url title reason now ∷ es) s hidden (stable, k) h =
      let e = call_hide url title reason now in
      run-replay es (step api e s) (meaning e hidden) k
        (hide-Holds url title reason now s hidden stable h)
  run-replay (call_restore url ∷ es) s hidden k h =
      run-replay es (step api (call_restore url) s) (restore (normalize api url) hidden) k
        (restore-Holds url s hidden h)
  run-replay (call_restore_all ∷ es) s hidden k h =
      run-replay es (step api call_restore_all s) nothing_hidden k (restore_all-Holds s)
