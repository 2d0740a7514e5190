-- ===== src/Mobile/CareerProfiles/Races.antt =====
-- A suggestion that comes when another profile is open: apps/mobile/src/screens/CareerProfilesScreen.tsx.
use kall.Common.{ℕ, String, ◌≡◌, false, none, some, List, [], ◌∷◌, arith}
use kall.Mobile.Task.{Result, ok, Event, starts, answers, play, ◌>>=◌, catch, finally}
use kall.Mobile.CareerProfiles.{
  CareerProfile, Suggestion, Request, suggest_career_strategy, Response, Screen,
}
use kall.Mobile.CareerProfiles.Answers.{profile_draft}
use kall.Mobile.CareerProfiles.Handlers.{filled, suggest_from_resume, begin, source_of}
use kall.Mobile.CareerProfiles.Review.{close}

module _ (lower : String → String) (shown : ℕ → String) where
  -- A person asks for suggestions from a resume for a new profile, closes the guide and opens a profile
  -- that there is; then the suggestion comes.
  abbrev pub reopened :
      (drawn : Screen) (resume : ℕ) (p : CareerProfile)
      → ((r : Request) → Result (Response r))
      → List (Event Screen Request Response)
  reopened drawn resume p answer =
      starts (suggest_from_resume lower shown resume false)
      ∷ starts close
      ∷ starts (begin lower shown drawn (some p))
      ∷ answers 2 answer
      ∷ []

  -- If a person asks for suggestions from a resume for a new profile, closes the guide and opens a
  -- profile that there is, and then the suggestion comes, then the answers of the profile that was
  -- opened are filled in from it, with the resume that it is for, and that profile is the one that
  -- a save would change, if there is no resume that the profile is based on and not exactly one
  -- resume.
  pub reopened-filled :
      (drawn s : Screen) (resume : ℕ) (p : CareerProfile)
      (answer : (r : Request) → Result (Response r)) (x : Suggestion)
      → source_of lower shown drawn.resumes p ≡ none
      → answer (suggest_career_strategy resume) ≡ ok (some x)
      → let after =
          (play (reopened drawn resume p answer) (record { screen = s; waiting = [] })).screen in
        (after.draft ≡ filled lower shown resume (some x) (profile_draft shown p))
        × (after.draft.default_resume_id ≡ some resume)
        × (after.editing ≡ some p)
        × (after.step ≡ some 0)
  unfolding filled play suggest_from_resume begin close ◌>>=◌ catch finally
  reopened-filled drawn s resume p answer x h k = ground (arith, h, k)
