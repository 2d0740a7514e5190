-- ===== src/Mobile/CareerProfiles/Tests.antt =====
-- The guided profiles at concrete answers; the text of a number is a tally.
use kall.Common.{
  head, inr, ◌⊎◌, Memᴰ, ℕ, zero, suc, ◌≤◌, String, ◌≡◌, refl, true, false, Option, none, some, [],
  ◌∷◌, All, if◌then◌else◌, length,
}
use kall.Common.Text.{includes, trim, is_nonempty}
use kall.Mobile.Task.{Result, ok, failed, api, Server, run, play}
use kall.Mobile.CareerProfiles.{
  CareerProfile, salary, Suggestion, Request, fetch_career_profiles, fetch_resume_studio,
  fetch_functional_areas, suggest_career_strategy, fetch_related_titles, upload_resume,
  create_career_profile, save_career_profile, mark_onboarding_complete, Response, Screen, no_lists,
}
use kall.Mobile.CareerProfiles.Answers.{profile_draft}
use kall.Mobile.CareerProfiles.Choices.{same, matches, matches-IsOffered, IsOffered}
use kall.Mobile.CareerProfiles.Handlers.{begin, filled, source_of}
use kall.Mobile.CareerProfiles.Review.{save, is_incomplete}
use kall.Mobile.CareerProfiles.RoundTrip.{same_answers, unedited_save-sent}
use kall.Mobile.CareerProfiles.Laws.{saves, save-sent}
use kall.Mobile.CareerProfiles.Races.{reopened, reopened-filled}

unfoldable tally : ℕ → String
tally zero = "1"
tally (suc n) = String.◌∷◌ "1" (tally n)

unfoldable count : String → Option ℕ
count String.[] = none
count (String.◌∷◌ c s) = elim (count s) [ none ↦ some 0 | some n ↦ some (suc n) ]

tally-count : (n : ℕ) → count (tally n) ≡ some n
unfolding tally count
tally-count zero = refl
tally-count (suc n) = rw (tally-count n) refl

tally-written : (n : ℕ) → is_nonempty (trim (tally n)) ≡ true
unfolding tally trim
tally-written zero = refl
tally-written (suc n) = refl

abbrev lower : String → String
lower s = s

abbrev profile : CareerProfile
profile = record {
  id = 3;
  name = " Quality ";
  target_titles = "QA lead" ∷ [];
  industries = [];
  functional_areas = [];
  include_keywords = "audit" ∷ [];
  exclude_keywords = [];
  work_types = "remote" ∷ [];
  employment_types = "full_time" ∷ [];
  countries = "Canada" ∷ [];
  states_regions = [];
  cities = [];
  pay_basis = "hourly";
  minimum_base = some 2;
  target_base = none;
  default_resume_id = none;
  is_active = false;
}

abbrev suggestion : Suggestion
suggestion = record {
  profile_name = some "Product design";
  target_titles = "Designer" ∷ [];
  functional_areas = [];
  industries = [];
  keywords = [];
  work_types = [];
  pay_basis = some salary;
  suggested_salary_min = none;
  suggested_salary_max = none;
}

abbrev answer : (r : Request) → Result (Response r)
answer fetch_career_profiles = ok (profile ∷ [])
answer fetch_resume_studio = failed (api "Busy.")
answer fetch_functional_areas = ok []
answer (suggest_career_strategy resume) = ok (some suggestion)
answer (fetch_related_titles titles exclude) = ok []
answer (upload_resume file) = ok (record { id = 9; name = file })
answer (create_career_profile input) = ok tt
answer (save_career_profile id input) = ok tt
answer (mark_onboarding_complete with_resume) = failed (api "Busy.")

abbrev server : Server Request Response
server sent r = answer r

abbrev screen : Screen
screen = record {
  profiles = profile ∷ [];
  resumes = [];
  functional_areas = [];
  editing = some profile;
  draft = profile_draft tally profile;
  step = some 10;
  loading = false;
  saving = false;
  suggesting = false;
  uploading = false;
  suggested_lists = no_lists;
  message = "";
}

save-sent_example :
    (run server (save count screen) screen []).sent
    ≡ (if is_incomplete screen.draft then [] else saves server count screen screen)
save-sent_example = save-sent server count screen screen

quantity-IsOffered : IsOffered lower "ant" ("Quality" ∷ []) "Quantity"
unfolding includes same
quantity-IsOffered = (refl, refl)

matches-IsOffered_example :
    let offered = matches lower ("Quality" ∷ "Quantity" ∷ []) ("Quality" ∷ []) "ant" in
    All (IsOffered lower "ant" ("Quality" ∷ [])) offered
    × (length offered ≤ 8)
    × (Memᴰ "Quantity" offered ⊎ (length offered ≡ 8))
matches-IsOffered_example =
    matches-IsOffered lower ("Quality" ∷ "Quantity" ∷ []) ("Quality" ∷ []) "ant" "Quantity" refl
      (Memᴰ.tail (Memᴰ.head refl)) quantity-IsOffered

no_source : source_of lower tally screen.resumes profile ≡ none
unfolding source_of
no_source = refl

reopened-filled_example :
    let after =
      (play
        (reopened lower tally screen 5 profile answer)
        (record { screen = screen; waiting = [] })).screen in
    (after.draft ≡ filled lower tally 5 (some suggestion) (profile_draft tally profile))
    × (after.draft.default_resume_id ≡ some 5)
    × (after.editing ≡ some profile)
    × (after.step ≡ some 0)
reopened-filled_example =
    reopened-filled lower tally screen screen 5 profile answer suggestion no_source refl

abbrev trimmed : CareerProfile
trimmed = record profile { name = "Quality"; default_resume_id = some 4 }

trimmed-name : trim trimmed.name ≡ trimmed.name
unfolding trim
trimmed-name = refl

unedited_save-sent_example :
    let opened = (run server (begin lower tally screen (some trimmed)) screen []).screen in
    head (run server (save count opened) opened []).sent
    ≡ some (save_career_profile trimmed.id (same_answers trimmed))
unedited_save-sent_example =
    unedited_save-sent server server lower tally count screen screen trimmed tally-count
      tally-written trimmed-name refl refl (inr refl) refl
