-- ===== src/Mobile/Tailoring/Previews.antt =====
-- The thumbnails of the tailoring screen: a run of the effect that has been cleaned up shows no more of
-- them. apps/mobile/src/screens/TailoringScreen.tsx.
use kall.Common.{ℕ, String, ◌≡◌, false, ◌<◌, List, [], ◌∷◌, arith, ◌==◌, if◌then◌else◌}
use kall.Mobile.Task.{Result, Event, answers, play, give, ◌>>=◌, ◌>>◌, catch}
use kall.Mobile.Task.Keeps.{Keeps, Keeps-bind, StartsKeep, play-Holds}
use kall.Mobile.Tailoring.{Request, Response, Screen}
use kall.Mobile.Tailoring.Handlers.{Handler}
use kall.Mobile.Tailoring.Documents.{preview, preview_each}

-- Answers, each to one of the handlers that wait.
abbrev pub replies :
    List (ℕ × ((r : Request) → Result (Response r))) → List (Event Screen Request Response)
replies [] = []
replies ((n, answer) ∷ rest) = answers n answer ∷ replies rest

module _ (cache_image : (bytes : List ℕ) → (name : String) → String) (run : ℕ)
    (shown : List (String × String)) where
  -- A later run has started, and these are the thumbnails on the screen.
  abbrev IsOvertaken : Screen → Type 0
  IsOvertaken s = (run < s.preview_run) × (s.previews ≡ shown)

  guarded-Keeps :
      (t : Handler Unit) (s : Screen)
      → IsOvertaken s
      → Keeps IsOvertaken (if s.preview_run == run then t else give tt)
  guarded-Keeps t s (later, same) =
      let other : (s.preview_run == run) ≡ false = ground (arith, later) in rw other tt

  preview-Keeps :
      (proposal : ℕ) (key : String) → Keeps IsOvertaken (preview cache_image run proposal key)
  unfolding ◌>>=◌ catch
  preview-Keeps proposal key = (
    (λ a s (later, same).
        let other : (s.preview_run == run) ≡ false = ground (arith, later) in rw other tt),
    (λ e. tt),
  )

  each-Keeps :
      (proposal : ℕ) (keys : List String)
      → Keeps IsOvertaken (preview_each cache_image run proposal keys)
  unfolding preview_each
  each-Keeps proposal [] = tt
  each-Keeps proposal (key ∷ keys) =
      guarded-Keeps
        (preview cache_image run proposal key >> preview_each cache_image run proposal keys)

  StartsKeep-replies :
      (rs : List (ℕ × ((r : Request) → Result (Response r)))) → StartsKeep IsOvertaken (replies rs)
  StartsKeep-replies [] = tt
  StartsKeep-replies (r ∷ rs) = StartsKeep-replies rs

  -- A run of the effect that waits for a thumbnail when a later run has started shows neither that
  -- thumbnail nor another one, whatever is answered to it.
  pub overtaken_previews :
      (proposal : ℕ) (key : String) (keys : List String) (s : Screen)
      (rs : List (ℕ × ((r : Request) → Result (Response r))))
      → run < s.preview_run
      → s.previews ≡ shown
      → (play (replies rs) (record {
        screen = s;
        waiting =
            (preview cache_image run proposal key >> preview_each cache_image run proposal keys)
            ∷ [];
      })).screen.previews
        ≡ shown
  overtaken_previews proposal key keys s rs later same =
      (play-Holds IsOvertaken (replies rs) _ (StartsKeep-replies rs) (
        (later, same),
        (
          Keeps-bind IsOvertaken (preview cache_image run proposal key) _
              (preview-Keeps proposal key) (λ _. each-Keeps proposal keys),
          tt,
        ),
      )).0.1
