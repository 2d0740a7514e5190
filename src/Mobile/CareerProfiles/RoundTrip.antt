-- ===== src/Mobile/CareerProfiles/RoundTrip.antt =====
-- Opening a profile in the guide and saving it: apps/mobile/src/screens/CareerProfilesScreen.tsx.
use kall.Common.{
  ap, inl, inr, ◌∙◌, ◌⊎◌, head, false, [], if◌then◌else◌, arith, ℕ, String, ◌≡◌, refl, true, Option,
  none, some,
}
use kall.Common.Text.{trim, is_nonempty}
use kall.Mobile.Opportunities.{truthy}
use kall.Mobile.Task.{Server, run, ◌>>=◌, catch, finally}
use kall.Mobile.CareerProfiles.{
  CareerProfile, CareerProfileInput, Resume, Request, save_career_profile, Response, Screen,
}
use kall.Mobile.CareerProfiles.Handlers.{
  suggest_for, suggest_from_resume, source_of, started, begin,
}
use kall.Mobile.CareerProfiles.Review.{save, is_incomplete}
use kall.Mobile.CareerProfiles.Laws.{saves, save-sent}
use kall.Mobile.CareerProfiles.Answers.{
  profile_draft, input_of, number_text, number_or_null, basis_of, is_empty, basis_text,
}

-- The answers of a profile as the server has them, with its name trimmed, a pay basis that is none taken as
-- a salary, and the resume 0 as none.
abbrev pub answers_of : CareerProfile → CareerProfileInput
answers_of p = record {
  name = trim p.name;
  target_titles = p.target_titles;
  industries = p.industries;
  functional_areas = p.functional_areas;
  include_keywords = p.include_keywords;
  exclude_keywords = p.exclude_keywords;
  work_types = p.work_types;
  employment_types = p.employment_types;
  countries = p.countries;
  states_regions = p.states_regions;
  cities = p.cities;
  pay_basis = basis_text (basis_of p.pay_basis);
  minimum_base = p.minimum_base;
  target_base = p.target_base;
  default_resume_id = truthy p.default_resume_id;
  is_active = some p.is_active;
}

module _ (shown : ℕ → String) (read_number : String → Option ℕ)
    (shown-read : (n : ℕ) → read_number (shown n) ≡ some n)
    (shown-written : (n : ℕ) → is_nonempty (trim (shown n)) ≡ true) where
  number-kept : (o : Option ℕ) → number_or_null read_number (number_text shown o "") ≡ o
  unfolding number_or_null
  number-kept none = refl
  number-kept (some n) = rw (shown-written n) (shown-read n)

  -- The answers that are sent for a profile that is shown and not edited.
  pub input_of-profile_draft :
      (p : CareerProfile) → input_of read_number (some p) (profile_draft shown p) ≡ answers_of p
  unfolding input_of profile_draft
  input_of-profile_draft p = rw (number-kept p.minimum_base, number-kept p.target_base) refl

-- The answers of a profile exactly as the server has them.
abbrev pub same_answers : CareerProfile → CareerProfileInput
same_answers p = record {
  name = p.name;
  target_titles = p.target_titles;
  industries = p.industries;
  functional_areas = p.functional_areas;
  include_keywords = p.include_keywords;
  exclude_keywords = p.exclude_keywords;
  work_types = p.work_types;
  employment_types = p.employment_types;
  countries = p.countries;
  states_regions = p.states_regions;
  cities = p.cities;
  pay_basis = p.pay_basis;
  minimum_base = p.minimum_base;
  target_base = p.target_base;
  default_resume_id = p.default_resume_id;
  is_active = some p.is_active;
}

basis-kept : (t : String) → (t ≡ "salary") ⊎ (t ≡ "hourly") → basis_text (basis_of t) ≡ t
basis-kept t (inl h) = rw h refl
basis-kept t (inr h) = rw h refl

answers_of-same :
    (p : CareerProfile)
    → trim p.name ≡ p.name
    → (p.pay_basis ≡ "salary") ⊎ (p.pay_basis ≡ "hourly")
    → truthy p.default_resume_id ≡ p.default_resume_id
    → answers_of p ≡ same_answers p
answers_of-same p n b r = rw (n, basis-kept p.pay_basis b, r) refl

module _ (server : Server Request Response) (lower : String → String) (shown : ℕ → String) where
  suggest_for-keeps :
      (o : Option Resume) (s : Screen)
      → let e = run server (suggest_for lower shown o) s [] in
        (e.screen.draft ≡ s.draft) × (e.screen.editing ≡ s.editing)
  unfolding suggest_from_resume run ◌>>=◌ catch finally
  suggest_for-keeps none s = (refl, refl)
  suggest_for-keeps (some r) s = ground arith

  begin-shows :
      (drawn s : Screen) (p : CareerProfile)
      → let e = run server (begin lower shown drawn (some p)) s [] in
        (e.screen.draft ≡ profile_draft shown p) × (e.screen.editing ≡ some p)
  unfolding begin run ◌>>=◌
  begin-shows drawn s p =
      suggest_for-keeps (source_of lower shown drawn.resumes p) (started lower shown (some p) s)

saves-head :
    (server : Server Request Response) (read_number : String → Option ℕ) (drawn s : Screen)
    (p : CareerProfile)
    → drawn.editing ≡ some p
    → head (saves server read_number drawn s)
      ≡ some (save_career_profile p.id (input_of read_number (some p) drawn.draft))
saves-head server read_number drawn s p h = rw h refl

-- A profile with a role and a name that is not empty and has no spaces around it, whose pay basis
-- is one of the two and whose resume is not 0, is sent exactly as it is if it is opened in the
-- guide, whatever suggestions come for it, and saved without an edit, provided that the text of a
-- number is not blank and the platform reads it as that number.
pub unedited_save-sent :
    (opening saving : Server Request Response) (lower : String → String) (shown : ℕ → String)
    (read_number : String → Option ℕ) (drawn s : Screen) (p : CareerProfile)
    → ((n : ℕ) → read_number (shown n) ≡ some n)
    → ((n : ℕ) → is_nonempty (trim (shown n)) ≡ true)
    → trim p.name ≡ p.name
    → is_nonempty p.name ≡ true
    → is_empty p.target_titles ≡ false
    → (p.pay_basis ≡ "salary") ⊎ (p.pay_basis ≡ "hourly")
    → truthy p.default_resume_id ≡ p.default_resume_id
    → let opened = (run opening (begin lower shown drawn (some p)) s []).screen in
      head (run saving (save read_number opened) opened []).sent
      ≡ some (save_career_profile p.id (same_answers p))
unfolding is_incomplete profile_draft
unedited_save-sent opening saving lower shown read_number drawn s p hr hw n ne titles basis resume =
    let opened : Screen = (run opening (begin lower shown drawn (some p)) s []).screen in
    let shows = begin-shows opening lower shown drawn s p in
    let complete : is_incomplete opened.draft ≡ false = rw (shows.0, n, ne, titles) refl in
    let body =
      input_of-profile_draft shown read_number hr hw p ∙ answers_of-same p n basis resume in
    let sent : head (run saving (save read_number opened) opened []).sent
        ≡ head (saves saving read_number opened opened) =
      ap head (save-sent saving read_number opened opened)
      ∙ ap (λ b. head (if b then [] else saves saving read_number opened opened)) complete in
    let same : input_of read_number (some p) opened.draft ≡ same_answers p = rw shows.0 body in
    sent
    ∙ saves-head saving read_number opened opened p shows.1
    ∙ ap (λ body. some (save_career_profile p.id body)) same
