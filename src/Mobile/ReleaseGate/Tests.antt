-- ===== src/Mobile/ReleaseGate/Tests.antt =====
-- The gate against a provider that grants everything and a store without a marker.
use kall.Common.{◌≡◌, refl, true, false, none, some, [], ◌∷◌, map}
use kall.Common.Text.{join}
use kall.Mobile.Task.{Result, ok, Server, run, play}
use kall.Mobile.ReleaseGate.{
  Request, get_marker, set_marker, sign_out, clear_session_token_cache, reset_purchase_session,
  clear_native_file_cache, Response, closed, check_release, current_release_identity,
}
use kall.Mobile.ReleaseGate.Laws.{checked_twice, awaited, opens_before_cleared}

abbrev answer : (r : Request) → Result (Response r)
answer get_marker = ok none
answer (set_marker identity) = ok tt
answer sign_out = ok tt
answer clear_session_token_cache = ok tt
answer reset_purchase_session = ok tt
answer clear_native_file_cache = ok tt

abbrev server : Server Request Response
server earlier r = answer r

identity_test : current_release_identity (some "kall") none (some "7") ≡ "kall:unknown-version:7"
unfolding current_release_identity join
identity_test = refl

abbrev updated : Server Request Response
updated earlier get_marker = ok (some "kall:1:6")
updated earlier r = answer r

-- The marker of another release clears the session.
what_is_asked :
    (run updated (check_release false true true "kall:1:7") closed []).sent
    ≡ get_marker
      ∷ sign_out
      ∷ clear_session_token_cache
      ∷ reset_purchase_session
      ∷ clear_native_file_cache
      ∷ set_marker "kall:1:7"
      ∷ []
unfolding check_release run
what_is_asked = refl

opens_before_cleared_example :
    let w = play (checked_twice "kall:1:7" answer) (record { screen = closed; waiting = [] }) in
    (w.screen.ready ≡ true) × (map awaited w.waiting ≡ none ∷ some clear_session_token_cache ∷ [])
opens_before_cleared_example = opens_before_cleared "kall:1:7" answer refl refl refl
