-- ===== src/Web/Onboarding/Races.antt =====
-- A resume that is still on its way when the person skips it: apps/web/app/onboarding/page.tsx.
use kall.Common.{ℕ, ◌==◌, false, String, ◌≡◌, Bool, true, List, [], ◌∷◌, arith}
use kall.Common.Json.{Json, Fields, obj}
use kall.Common.Http.{Body, is_ok}
use kall.Mobile.Task.{Failure, Result, ok, Event, starts, answers, play, ◌>>=◌, catch, finally}
use kall.Web.Onboarding.{Request, upload_file, Response, Page}
use kall.Web.Onboarding.Handlers.{upload_resume, skip_resume, skip_strategy}

module _ (stringify : Json → String) (is_type_error : Failure → Bool)
    (thrown : Body → Failure) where
  -- The person starts an upload, skips it, and skips the strategy on the page as it is drawn then; the two
  -- answers to the upload's requests come last.
  abbrev pub skipped :
      (drawn : Page) (first second : (r : Request) → Result (Response r))
      → List (Event Page Request Response)
  skipped drawn first second =
      starts (upload_resume stringify is_type_error thrown)
      ∷ starts skip_resume
      ∷ starts (skip_strategy drawn)
      ∷ answers 2 first
      ∷ answers 2 second
      ∷ []

  not_401 : (n : ℕ) → is_ok n ≡ true → (n == 401) ≡ false
  not_401 n k = ground arith

  -- If a person starts an upload, skips it and then skips the strategy, and after that the upload is granted
  -- with a JSON object, then the wizard ends at the strategy, with the resume as uploaded.
  pub skipped-reopens :
      (drawn s : Page) (first second : (r : Request) → Result (Response r)) (status : ℕ)
      (resume : Fields)
      → is_ok status ≡ true
      → first upload_file ≡ ok (record { status = status; body = Body.json (obj resume) })
      → let after =
          (play (skipped drawn first second) (record { screen = s; waiting = [] })).screen in
        (after.step ≡ 3) × (after.resume_uploaded ≡ true)
  unfolding play upload_resume skip_resume skip_strategy ◌>>=◌ catch finally
  skipped-reopens drawn s first second status resume g h = ground (arith, h, g, not_401 status g)
