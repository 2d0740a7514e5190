-- ===== src/Mobile/ReleaseGate.antt =====
-- The gate behind which the phone opens after a native update: apps/mobile/src/components/
-- ReleaseResetGate.tsx. The secure store, the session provider, the purchases and the file system answer
-- its requests.
pub mod Laws
pub mod Tests
use kall.Common.{
  String, Bool, true, false, not, ◌&&◌, Option, none, some, [], ◌∷◌, str_eq, if◌then◌else◌,
}
use Prim.Native.String
use kall.Common.Text.{join, is_nonempty}
use kall.Mobile.Task.{Task, give, set, await, catch, ◌>>=◌, ◌>>◌}

-- The marker of the release that is stored, and the four things that are cleared.
pub data Request : Type 0 where
  get_marker : Request
  set_marker : (identity : String) → Request
  sign_out clear_session_token_cache reset_purchase_session clear_native_file_cache : Request

abbrev pub Response : Request → Type 0
Response get_marker = Option String
Response _ = Unit

pub record Gate : Type 0 where
  pub ready : Bool
  pub error : String

abbrev pub closed : Gate
closed = record { ready = false; error = "" }

abbrev pub Handler : Type 0 → Type 0
Handler A = Task Gate Request Response A

-- `currentReleaseIdentity`, of what the platform says of the application.
abbrev or_unknown : Option String → String → String
or_unknown none fallback = fallback
or_unknown (some t) fallback = t

unfoldable pub current_release_identity : (id version build : Option String) → String
current_release_identity id version build = join ":" (
    or_unknown id "unknown-app"
    ∷ or_unknown version "unknown-version"
    ∷ or_unknown build "unknown-build"
    ∷ [])

-- The marker that is stored makes the session one of another release.
unfoldable pub needs_reset :
    (signed_in : Bool) (identity : String) (previous : Option String) → Bool
needs_reset signed_in identity none = signed_in
needs_reset signed_in identity (some previous) =
    is_nonempty previous && not (str_eq previous identity)

unfoldable pub reset : Handler Unit
reset = do
  await sign_out
  await clear_session_token_cache
  await reset_purchase_session
  await clear_native_file_cache

abbrev pub refused : String
refused =
    "Kall was updated, but the secure session refresh did not finish. Connect to the internet and try again."

abbrev reset_if : Bool → Handler Unit
reset_if true = reset
reset_if false = give tt

unfoldable pub check_stored : (signed_in : Bool) (identity : String) → Handler Unit
unfolding reset needs_reset
check_stored signed_in identity = do
  previous ← await get_marker
  reset_if (needs_reset signed_in identity previous)
  await (set_marker identity)
  set (λ s. record s { ready = true })

-- `checkRelease` of a render: whether the platform is the web, and what the session provider says.
unfoldable pub check_release : (web is_loaded signed_in : Bool) (identity : String) → Handler Unit
unfolding ◌>>=◌ catch check_stored
check_release web is_loaded signed_in identity = do
  set (λ s. record s { error = ""; ready = false })
  if web
      then set (λ s. record s { ready = true })
      else if is_loaded
      then catch (check_stored signed_in identity) (λ _. set (λ s. record s { error = refused }))
      else give tt
