-- ===== src/Mobile/CareerProfiles/Laws.antt =====
-- What saving and leaving a question open do: apps/mobile/src/screens/CareerProfilesScreen.tsx.
use kall.Common.{
  ℕ, String, ◌≡◌, Bool, true, false, not, Option, none, some, List, [], ◌∷◌, arith, if◌then◌else◌,
  contains,
}
use kall.Mobile.Task.{Result, ok, failed, Server, run, ◌>>=◌, catch, finally}
use kall.Mobile.CareerProfiles.{
  Draft, QuestionKey, name, list, location, compensation, target_titles, industries,
  functional_areas, include_keywords, exclude_keywords, work_types, employment_types, Request,
  fetch_career_profiles, fetch_resume_studio, fetch_functional_areas, create_career_profile,
  save_career_profile, mark_onboarding_complete, Response, Screen,
}
use kall.Mobile.CareerProfiles.Answers.{input_of, is_empty, unknowns, left_open}
use kall.Mobile.CareerProfiles.Review.{save, is_incomplete}

-- The name under which a question counts as open; the two optional ones do not count.
abbrev pub label : QuestionKey → Option String
label name = some "career direction name"
label location = some "location"
label compensation = some "target compensation"
label (list target_titles) = some "target roles"
label (list industries) = some "industries"
label (list include_keywords) = some "evidence-backed strengths"
label (list work_types) = some "work setting"
label (list employment_types) = some "work arrangement"
label (list _) = none

abbrev pub Shows : Option String → List String → Type 0
Shows none open_questions = Unit
Shows (some text) open_questions = contains text open_questions ≡ true

-- A question that is left open is listed as open in the review, unless it is one of the two optional ones.
pub left_open-Shows :
    (key : QuestionKey) (d : Draft) → Shows (label key) (unknowns (left_open key d))
unfolding unknowns left_open
left_open-Shows name d = ground arith
left_open-Shows location d = ground arith
left_open-Shows compensation d = ground arith
left_open-Shows (list target_titles) d = ground arith
left_open-Shows (list industries) d = ground arith
left_open-Shows (list functional_areas) d = tt
left_open-Shows (list include_keywords) d = ground arith
left_open-Shows (list exclude_keywords) d = tt
left_open-Shows (list work_types) d = ground arith
left_open-Shows (list employment_types) d = ground arith

module _ (server : Server Request Response) (read_number : String → Option ℕ)
    (drawn s : Screen) where
  abbrev reload : List Request
  reload = fetch_career_profiles ∷ fetch_resume_studio ∷ fetch_functional_areas ∷ []

  abbrev is_ok : Result Unit → Bool
  is_ok (ok _) = true
  is_ok (failed e) = false

  abbrev granted : (answer : Result Unit) → List Request → List Request
  granted (ok _) rest = rest
  granted (failed e) rest = []

  -- The requests of a save that is allowed.
  abbrev pub saves : List Request
  saves = elim drawn.editing [
    | some p ↦
        let r = save_career_profile p.id (input_of read_number drawn.editing drawn.draft) in
        r ∷ granted (server [] r) reload
    | none ↦
        let r = create_career_profile (input_of read_number drawn.editing drawn.draft) in
        r ∷ granted (server [] r) (mark_onboarding_complete (not (is_empty drawn.resumes)) ∷ reload)
  ]

  -- Saving a draft without a name or a role sends nothing; otherwise it sends the one profile, and only if
  -- that is granted reports the end of the onboarding for a new one and reloads.
  pub save-sent :
      let e = run server (save read_number drawn) s [] in
      e.sent ≡ (if is_incomplete drawn.draft then [] else saves)
  unfolding save run ◌>>=◌ catch finally
  save-sent = ground arith
