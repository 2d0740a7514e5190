-- ===== src/Web/Onboarding/Tests.antt =====
-- The wizard against concrete answers.
use kall.Common.{
  ℕ, String, ◌≡◌, refl, Bool, true, false, ◌||◌, Option, none, some, List, [], ◌∷◌, if◌then◌else◌,
  All,
}
use kall.Common.Json.{Json, Fields, num, field, end, obj}
use kall.Common.Http.{Body}
use kall.Mobile.Task.{Failure, Result, ok, failed, other, Server, run, play}
use kall.Web.Onboarding.{
  ProfileBody, Request, create_professional_profile, upload_file, suggest_strategy, put_progress,
  Response, Page, initial, Form, change_countries, change_regions, default_country,
}
use kall.Web.Onboarding.Handlers.{completed_steps, create_profile, upload_resume, say, profile_body}
use kall.Web.Onboarding.Regions.{
  IsFrom, Reaches, opens, selects_countries, selects_regions, sent_regions-IsFrom,
}
use kall.Web.Onboarding.Laws.{
  created_page, reported, is_created, is_uploaded, create_profile-end, upload_resume-step,
}
use kall.Web.Onboarding.Races.{skipped, skipped-reopens}

abbrev stringify : Json → String
stringify j = "{}"

abbrev is_type_error : Failure → Bool
is_type_error e = false

abbrev thrown : Body → Failure
thrown body = other "Unexpected end of JSON input"

abbrev resume : Fields
resume = field "id" (num "5") end

abbrev answer : (r : Request) → Result (Response r)
answer (create_professional_profile body) = ok (record { status = 201; body = Body.empty })
answer upload_file = ok (record { status = 201; body = Body.json (obj resume) })
answer (suggest_strategy id) = ok (record { status = 402; body = Body.empty })
answer (put_progress steps) = failed (other "Failed to fetch")

abbrev server : Server Request Response
server sent r = answer r

abbrev form : Form
form name = some "Quality, Audit"

abbrev regions_for_country : String → List String
regions_for_country code = "Ontario" ∷ "Quebec" ∷ []

abbrev selected : Page
selected = change_countries regions_for_country ("CA" ∷ []) (
    change_regions regions_for_country ("Quebec" ∷ []) (
      change_countries regions_for_country ("CA" ∷ [])
        (default_country regions_for_country (λ _. true) none initial)))

abbrev number : String → Option ℕ
number text = none

abbrev country_name : String → String
country_name code = "Canada"

selected-Reaches : Reaches regions_for_country selected
unfolding change_countries default_country
selected-Reaches = selects_countries ("CA" ∷ []) (
    selects_regions ("Quebec" ∷ []) (refl, tt)
      (selects_countries ("CA" ∷ []) (opens (λ _. true) none)))

sent_regions-IsFrom_example :
    let sent = profile_body country_name number selected form in
    All (IsFrom regions_for_country country_name sent.countries) sent.states_regions
sent_regions-IsFrom_example =
    sent_regions-IsFrom regions_for_country country_name number selected form selected-Reaches

abbrev body : ProfileBody
body = profile_body country_name number initial form

create_profile-end_example :
    let answer' = server [] (create_professional_profile body) in
    let e = run server (create_profile stringify initial body) initial [] in
    (e.screen
      ≡ reported stringify server initial answer'
          (create_professional_profile body ∷ [])
          (record (created_page stringify server answer' (say "" initial)) { submitting = false }))
    × (e.sent
        ≡ create_professional_profile body
          ∷ (if is_created stringify server answer'
              then put_progress (completed_steps initial.resume_uploaded true) ∷ []
              else []))
create_profile-end_example = create_profile-end stringify server initial body initial

upload_resume-step_example :
    let uploaded = is_uploaded stringify server (server [] upload_file) in
    let e = run server (upload_resume stringify is_type_error thrown) initial [] in
    (e.screen.step ≡ (if uploaded then 3 else initial.step))
    × (e.screen.resume_uploaded ≡ (uploaded || initial.resume_uploaded))
    × (e.screen.submitting ≡ false)
upload_resume-step_example = upload_resume-step stringify server is_type_error thrown initial

skipped-reopens_example :
    let after =
      (play
        (skipped stringify is_type_error thrown initial answer answer)
        (record { screen = initial; waiting = [] })).screen in
    (after.step ≡ 3) × (after.resume_uploaded ≡ true)
skipped-reopens_example =
    skipped-reopens stringify is_type_error thrown initial initial answer answer 201 resume refl
      refl
