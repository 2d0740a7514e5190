-- ===== src/Web/Onboarding/Laws.antt =====
-- What the two forms of the wizard do on every answer: apps/web/app/onboarding/page.tsx.
use kall.Common.{
  ℕ, String, ◌≡◌, Bool, true, false, not, ◌&&◌, ◌||◌, Option, none, some, List, [], ◌∷◌, ◌==◌,
  arith, if◌then◌else◌,
}
use kall.Common.Json.{Json}
use kall.Common.Http
use kall.Common.Http.{Body, is_ok, body_json}
use kall.Mobile.Task.{Failure, Result, ok, failed, Server, run, ◌>>=◌, catch, finally}
use kall.Web.Onboarding.{
  ProfileBody, Request, create_professional_profile, upload_file, put_progress, Response, Page,
}
use kall.Web.Onboarding.Handlers.{
  say, error_message, completed_steps, create_profile, upload_resume, sign_in, looked_at,
}

module _ (stringify : Json → String) (server : Server Request Response) where
  abbrev answered : ℕ → Body → Page → Page
  answered status body s =
      if status == 401
      then sign_in s
      else if is_ok status
      then record s { profile_created = true; step = 4 }
      else say (error_message stringify "Could not create your career strategy." body) s

  -- The page after an answer to the request that creates the profile.
  abbrev pub created_page : Result Http.Response → Page → Page
  created_page (ok r) s = answered r.status r.body s
  created_page (failed e) s = say "Kall could not save your strategy. Please try again." s

  abbrev pub is_created : Result Http.Response → Bool
  is_created (ok r) = not (r.status == 401) && is_ok r.status
  is_created (failed e) = false

  -- The page once the report of the steps is answered, if there is one.
  abbrev pub reported : (drawn : Page) → Result Http.Response → List Request → Page → Page
  reported drawn answer earlier s =
      if is_created answer
      then looked_at (server earlier (put_progress (completed_steps drawn.resume_uploaded true))) s
      else s

  -- Saving the strategy sends it. If the profile is created, then the wizard is at its end, and the steps
  -- that are reported as completed are those of the render; if not, it stays where it is and says why, or
  -- leaves for the sign-in page, to which it also leaves if the session has ended when the steps are
  -- reported. It is never left submitting.
  pub create_profile-end :
      (drawn : Page) (body : ProfileBody) (s : Page)
      → let answer = server [] (create_professional_profile body) in
        let e = run server (create_profile stringify drawn body) s [] in
        (e.screen
          ≡ reported drawn answer
              (create_professional_profile body ∷ [])
              (record (created_page answer (say "" s)) { submitting = false }))
        × (e.sent
            ≡ create_professional_profile body
              ∷ (if is_created answer
                  then put_progress (completed_steps drawn.resume_uploaded true) ∷ []
                  else []))
  unfolding create_profile run ◌>>=◌ catch finally
  create_profile-end drawn body s = ground arith

  -- The upload is accepted and its answer can be read.
  abbrev pub is_read : Option Json → Bool
  is_read none = false
  is_read (some j) = true

  abbrev pub is_uploaded : Result Http.Response → Bool
  is_uploaded (ok r) = not (r.status == 401) && (is_ok r.status && is_read (body_json r.body))
  is_uploaded (failed e) = false

  -- An upload goes on to the strategy exactly if the server has taken the resume and says so in JSON,
  -- whatever happens to the suggestion that is asked for next, and stays where it is otherwise; it is
  -- never left submitting.
  pub upload_resume-step :
      (is_type_error : Failure → Bool) (thrown : Body → Failure) (s : Page)
      → let uploaded = is_uploaded (server [] upload_file) in
        let e = run server (upload_resume stringify is_type_error thrown) s [] in
        (e.screen.step ≡ (if uploaded then 3 else s.step))
        × (e.screen.resume_uploaded ≡ (uploaded || s.resume_uploaded))
        × (e.screen.submitting ≡ false)
  unfolding upload_resume run ◌>>=◌ catch finally
  upload_resume-step is_type_error thrown s = ground arith
