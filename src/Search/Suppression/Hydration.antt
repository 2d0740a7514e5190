-- ===== src/Search/Suppression/Hydration.antt =====
-- How often the list of hidden results is fetched.
use kall.Common.{ℕ, suc, ◌+◌, ◌≤◌, ◌≡◌, refl, none, List, [], ◌∷◌, ◌++◌, arith, ◌==◌, if◌then◌else◌}
use kall.Common.Http.{failed, answered, is_ok}
use kall.Search.Url.{UrlApi, normalize}
use kall.Search.Suppression.{
  Effect, results_changed, get_suppressed, post_suppressed, delete_suppressed,
  delete_all_suppressed, to_sign_in, Store, initial, Event, call_load, settled, call_hide,
  call_restore, call_restore_all, step, run,
}

abbrev pub fetches : List Effect → ℕ
fetches [] = 0
fetches (get_suppressed ∷ es) = suc (fetches es)
fetches (_ ∷ es) = fetches es

-- Whether the promise of a load would be rejected: no answer, or a good one whose body does not parse.
abbrev pub rejects : {api : UrlApi} → Event api → ℕ
rejects (settled failed) = 1
rejects (settled (answered status none)) =
    if status == 401 then 0 else if is_ok status then 1 else 0
rejects _ = 0

abbrev pub rejections : {api : UrlApi} → List (Event api) → ℕ
rejections [] = 0
rejections (e ∷ es) = rejects e + rejections es

fetches-append :
    (es : List Effect) (e : Effect) → fetches (es ++ e ∷ []) ≡ fetches es + fetches (e ∷ [])
fetches-append [] e = omega arith
fetches-append (get_suppressed ∷ es) e = omega (arith, fetches-append es e)
fetches-append (results_changed ∷ es) e = fetches-append es e
fetches-append (post_suppressed _ _ _ ∷ es) e = fetches-append es e
fetches-append (delete_suppressed _ ∷ es) e = fetches-append es e
fetches-append (delete_all_suppressed ∷ es) e = fetches-append es e
fetches-append (to_sign_in ∷ es) e = fetches-append es e

fetches-append_two :
    (es : List Effect) (e : Effect)
    → fetches (e ∷ []) ≡ 0
    → fetches ((es ++ results_changed ∷ []) ++ e ∷ []) ≡ fetches es
fetches-append_two es e h =
    omega (arith, fetches-append (es ++ results_changed ∷ []) e, fetches-append es results_changed)

-- The fetches made so far, and one more if the next load would fetch.
abbrev budget : Store → ℕ
budget s = fetches s.effects + (if s.hydration then 0 else 1)

module _ (api : UrlApi) where
  step-budget : (e : Event api) (s : Store) → budget (step api e s) ≤ budget s + rejects e
  unfolding step
  step-budget call_load s = ground (arith, fetches-append s.effects get_suppressed)
  step-budget (settled r) s =
      ground (arith, fetches-append s.effects results_changed, fetches-append s.effects to_sign_in)
  step-budget (call_hide url title reason now) s =
      ground (
        arith,
        fetches-append_two s.effects (post_suppressed (normalize api url) title reason) refl,
      )
  step-budget (call_restore url) s =
      ground (arith, fetches-append_two s.effects (delete_suppressed (normalize api url)) refl)
  step-budget call_restore_all s =
      ground (arith, fetches-append_two s.effects delete_all_suppressed refl)

  run-budget :
      (es : List (Event api)) (s : Store) → budget (run api es s) ≤ budget s + rejections es
  unfolding run
  run-budget [] s = omega arith
  run-budget (e ∷ es) s = omega (arith, step-budget e s, run-budget es (step api e s))

  -- However often a page asks for the hidden results, they are fetched once, and once more for each
  -- rejected attempt.
  pub load_once : (es : List (Event api)) → fetches (run api es initial).effects ≤ 1 + rejections es
  load_once es = omega (arith, run-budget es initial)
