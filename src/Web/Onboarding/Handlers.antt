-- ===== src/Web/Onboarding/Handlers.antt =====
-- The handlers of the wizard: apps/web/app/onboarding/page.tsx, from `errorMessage` to `markComplete`.
use kall.Common.{
  ℕ, String, Bool, true, false, not, Option, none, some, List, [], ◌∷◌, ◌++◌, map, ◌==◌,
  if◌then◌else◌,
}
use kall.Common.Json.{Json, null, str, arr, items, member}
use kall.Common.Text.{join, is_nonempty}
use kall.Common.Http
use kall.Common.Http.{Body, is_ok, body_json}
use kall.Mobile.Task.{
  Failure, Result, ok, failed, update, returned, give, throw, call, ◌>>=◌, ◌>>◌, set, catch,
  finally,
}
use kall.Web.Chips.{csv}
use kall.Web.Onboarding.{
  ProfileBody, Request, create_professional_profile, upload_file, suggest_strategy, put_progress,
  Page, Handler, Form, optional_profile_number, or_default,
}

abbrev pub sign_in : Page → Page
sign_in s = record s { signed_out = true }

-- What `fetchKall` does on an answer: it leaves for the sign-in page on a 401.
abbrev pub looked_at : Result Http.Response → Page → Page
looked_at (ok r) s = if r.status == 401 then sign_in s else s
looked_at (failed e) s = s

abbrev await_kall : Request → Handler Http.Response
await_kall r = call r (λ x. update (looked_at x) (returned x))

abbrev pub say : String → Page → Page
say message s = record s { message = message }

abbrev pub go : ℕ → Page → Page
go step s = record s { step = step }

abbrev detail_text : (stringify : Json → String) → (fallback : String) → Option Json → String
detail_text stringify fallback (some (str t)) = t
detail_text stringify fallback (some (arr vs)) = join ", " (map stringify (items vs))
detail_text stringify fallback _ = fallback

-- `errorMessage`, with the platform's `JSON.stringify`.
unfoldable pub error_message : (stringify : Json → String) → (fallback : String) → Body → String
unfolding join
error_message stringify fallback body = elim (body_json body) [
  | none ↦ fallback
  | some j ↦ detail_text stringify fallback (member "detail" j)
]

-- `networkFailureMessage`: `is_type_error` is `error instanceof TypeError`.
unfoldable pub network_failure_message :
    (is_type_error : Failure → Bool) → Failure → (fallback : String) → String
network_failure_message is_type_error e fallback =
    if is_type_error e
    then "Kall couldn't reach the server. Check your connection and try again."
    else fallback

-- The steps that `markComplete` reports.
unfoldable pub completed_steps : (with_resume with_profile : Bool) → List String
completed_steps with_resume with_profile =
    "account" ∷ (if with_resume then "resume" ∷ [] else [])
    ++ (if with_profile then "strategy" ∷ [] else [])

-- `markComplete`: a failure is ignored.
unfoldable pub mark_complete : (with_resume with_profile : Bool) → Handler Unit
unfolding completed_steps
mark_complete with_resume with_profile =
    call (put_progress (completed_steps with_resume with_profile)) (λ x. set (looked_at x))

-- `skipResume`, and `skipStrategy` of a render.
unfoldable pub skip_resume : Handler Unit
skip_resume = set (go 3)

unfoldable pub skip_strategy : (drawn : Page) → Handler Unit
unfolding mark_complete
skip_strategy drawn = do set (go 4); mark_complete drawn.resume_uploaded false

-- `countryName(code) || code`
abbrev pub shown_country : (country_name : String → String) → String → String
shown_country country_name code =
    if is_nonempty (country_name code) then country_name code else code

-- The body of the request that creates the profile.
unfoldable pub profile_body :
    (country_name : String → String) (number : String → Option ℕ)
    → (drawn : Page) → Form
    → ProfileBody
unfolding csv optional_profile_number
profile_body country_name number drawn form = record {
  name = form "name";
  target_titles = csv (form "target_titles");
  industries = csv (form "industries");
  functional_areas = csv (form "functional_areas");
  include_keywords = csv (form "include_keywords");
  exclude_keywords = csv (form "exclude_keywords");
  countries = map (shown_country country_name) drawn.selected_country_codes;
  states_regions = drawn.selected_regions;
  cities = csv (form "cities");
  work_types = csv (form "work_types");
  employment_types = csv (form "employment_types");
  pay_basis = or_default (form "pay_basis") "salary";
  minimum_base = optional_profile_number number (form "minimum_base");
  target_base = optional_profile_number number (form "target_base");
}

abbrev pub set_submitting : Bool → Page → Page
set_submitting on s = record s { submitting = on }

-- `response.json()`, which throws on a body that is none; what it throws is the platform's.
abbrev read_json : (thrown : Body → Failure) → Body → Handler Json
read_json thrown body = elim (body_json body) [ none ↦ throw (thrown body) | some j ↦ give j ]

abbrev is_null : Json → Bool
is_null null = true
is_null _ = false

abbrev not_null : Option Json → Option Json
not_null (some null) = none
not_null o = o

module _ (stringify : Json → String) where
  -- The `try` of `createProfile`: whether the profile was created.
  unfoldable pub creating : ProfileBody → Handler Bool
  unfolding error_message
  creating body = do
    response ← await_kall (create_professional_profile body)
    if response.status == 401
        then (do set sign_in; give false)
        else if not (is_ok response.status)
        then (do
          set (say (error_message stringify "Could not create your career strategy." response.body))
          give false)
        else (do set (λ s. record s { profile_created = true }); set (go 4); give true)

  abbrev pub not_saved : Failure → Handler Bool
  not_saved e = do set (say "Kall could not save your strategy. Please try again."); give false

  -- `createProfile` of a render. Nothing waits for the progress, which is sent as the handler ends.
  unfoldable pub create_profile : (drawn : Page) → ProfileBody → Handler Unit
  unfolding creating mark_complete
  create_profile drawn body = do
    set (say "")
    set (set_submitting true)
    created ← finally (catch (creating body) not_saved) (set_submitting false)
    if created then mark_complete drawn.resume_uploaded true else give tt

  -- The inner `try`: the suggestion for the uploaded resume, of which a failure is ignored. Reading a field
  -- of null is a failure.
  unfoldable pub suggested : (thrown : Body → Failure) → (resume : Json) → Handler Unit
  suggested thrown resume =
      catch
        (if is_null resume then throw (thrown Body.empty) else (do
          response ← await_kall (suggest_strategy (member "id" resume))
          if is_ok response.status
              then (do
                body ← read_json thrown response.body
                if is_null body
                    then throw (thrown Body.empty)
                    else set (λ s. record s { suggestion = not_null (member "suggestion" body) }))
              else give tt))
        (λ _. give tt)

  unfoldable pub uploading : (thrown : Body → Failure) → Handler Unit
  unfolding suggested error_message
  uploading thrown = do
    response ← await_kall upload_file
    if response.status == 401
        then set sign_in
        else if not (is_ok response.status)
        then set (say (error_message stringify "Resume upload failed." response.body))
        else (do
          resume ← read_json thrown response.body
          set (λ s. record s { resume_uploaded = true })
          suggested thrown resume
          set (go 3))

  -- `uploadResume`
  unfoldable pub upload_resume :
      (is_type_error : Failure → Bool) (thrown : Body → Failure) → Handler Unit
  unfolding uploading network_failure_message
  upload_resume is_type_error thrown = do
    set (say "")
    set (set_submitting true)
    finally
        (catch (uploading thrown) (λ e. set (
          say (
            network_failure_message is_type_error e
              "Kall could not upload your resume. Please try again."))))
        (set_submitting false)
