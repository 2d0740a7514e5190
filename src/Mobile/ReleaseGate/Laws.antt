-- ===== src/Mobile/ReleaseGate/Laws.antt =====
-- When the gate opens: apps/mobile/src/components/ReleaseResetGate.tsx.
use kall.Common.{
  ◌≢◌, String, ◌≡◌, Bool, true, false, Option, none, some, List, [], ◌∷◌, map, ◌⊎◌, arith,
}
use kall.Mobile.Task.{Result, ok, failed, Task, call, Event, starts, answers, play}
use kall.Mobile.ReleaseGate.{
  Request, get_marker, set_marker, sign_out, clear_session_token_cache, reset_purchase_session,
  clear_native_file_cache, Response, Gate, closed, check_release, refused,
}

-- The requests of a complete reset, in their order.
abbrev pub reset_requests : List Request
reset_requests =
    sign_out ∷ clear_session_token_cache ∷ reset_purchase_session ∷ clear_native_file_cache ∷ []

abbrev clears : Bool → List Request → List Request
clears true rest =
    sign_out ∷ clear_session_token_cache ∷ reset_purchase_session ∷ clear_native_file_cache ∷ rest
clears false rest = rest

abbrev pub Shut : Gate → Type 0
Shut g = (g.ready ≡ false) × (g.error ≡ refused)

abbrev pub Opened : Gate → Type 0
Opened g = (g.ready ≡ true) × (g.error ≡ "")

-- The requests of a check that opens the gate, by the marker that was stored: the session is cleared if the
-- marker is of another release, or if there is none and somebody is signed in.
pub data Opens (signed_in : Bool) (identity : String) : Option String → List Request → Type 0 where
  same_release : Opens signed_in identity (some identity) (get_marker ∷ set_marker identity ∷ [])
  blank_marker : Opens signed_in identity (some "") (get_marker ∷ set_marker identity ∷ [])
  first_start :
      signed_in ≡ false → Opens signed_in identity none (get_marker ∷ set_marker identity ∷ [])
  other_release :
      {previous : String}
      → previous ≢ ""
      → previous ≢ identity
      → Opens signed_in identity
          (some previous)
          (get_marker ∷ clears true (set_marker identity ∷ []))
  upgraded :
      signed_in ≡ true
      → Opens signed_in identity none (get_marker ∷ clears true (set_marker identity ∷ []))

-- What a check leaves, by what the platform is, whether the session is loaded, and the answer to the read
-- of the marker.
abbrev pub Checked :
    (web is_loaded signed_in : Bool) (identity : String)
    → Result (Option String)
    → Gate
    → List Request
    → Type 0
Checked true is_loaded signed_in identity answer g sent = Opened g × (sent ≡ [])
Checked false false signed_in identity answer g sent =
    (g.ready ≡ false) × (g.error ≡ "") × (sent ≡ [])
Checked false true signed_in identity (failed e) g sent = Shut g × (sent ≡ get_marker ∷ [])
Checked false true signed_in identity (ok previous) g sent =
    (Opened g × Opens signed_in identity previous sent) ⊎ Shut g

-- The request that a handler waits for.
abbrev pub awaited : Task Gate Request Response Unit → Option Request
awaited (call r k) = some r
awaited _ = none

-- A signed-in person's first check of a release that stores a marker; the sign-out that it makes changes
-- what the session provider says, so that the next render checks again.
abbrev pub checked_twice :
    (identity : String) → ((r : Request) → Result (Response r)) → List (Event Gate Request Response)
checked_twice identity answer =
    starts (check_release false true true identity)
    ∷ answers 0 answer
    ∷ answers 0 answer
    ∷ starts (check_release false true false identity)
    ∷ answers 0 answer
    ∷ answers 0 answer
    ∷ []

-- Where no marker is stored yet, the second check opens the gate while the first one still waits to clear
-- the token, and has cleared neither the purchases nor the files.
pub opens_before_cleared :
    (identity : String) (answer : (r : Request) → Result (Response r))
    → answer get_marker ≡ ok none
    → answer sign_out ≡ ok tt
    → answer (set_marker identity) ≡ ok tt
    → let w = play (checked_twice identity answer) (record { screen = closed; waiting = [] }) in
      (w.screen.ready ≡ true) × (map awaited w.waiting ≡ none ∷ some clear_session_token_cache ∷ [])
unfolding check_release play
opens_before_cleared identity answer h k l = ground (arith, h, k, l)
