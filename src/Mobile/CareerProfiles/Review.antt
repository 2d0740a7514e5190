-- ===== src/Mobile/CareerProfiles/Review.antt =====
-- Walking through the questions, and saving the reviewed answers:
-- apps/mobile/src/screens/CareerProfilesScreen.tsx.
use kall.Common.{
  ℕ, ◌+◌, String, Bool, true, false, not, ◌||◌, Option, none, some, List, [], ◌∷◌, if◌then◌else◌,
  keep, map, contains, zero, suc,
}
use kall.Common.Text.{trim, is_nonempty}
use kall.Mobile.Task.{give, call, ◌>>◌, set, await, catch, finally, api_message}
use kall.Mobile.CareerProfiles.{
  Draft, QuestionKey, no_lists, create_career_profile, save_career_profile,
  mark_onboarding_complete, Screen, Handler, questions,
}
use kall.Mobile.CareerProfiles.Answers.{blank, input_of, is_empty, left_open}
use kall.Mobile.CareerProfiles.Handlers.{say, load}

-- What `save` sends: the profile that is edited, or a new one with the end of the onboarding, whose
-- answer is not waited for.
unfoldable pub send_profile : (read_number : String → Option ℕ) → (drawn : Screen) → Handler Unit
unfolding input_of
send_profile read_number drawn = elim drawn.editing [
  | some p ↦ await (save_career_profile p.id (input_of read_number drawn.editing drawn.draft))
  | none ↦ (do
    await (create_career_profile (input_of read_number drawn.editing drawn.draft))
    call (mark_onboarding_complete (not (is_empty drawn.resumes))) (λ _. give tt))
]

abbrev pub finished : Screen → Screen
finished s = record s {
  step = none;
  editing = none;
  draft = blank;
  suggested_lists = no_lists;
  message = "Career profile saved.";
}

unfoldable pub is_incomplete : Draft → Bool
unfolding trim
is_incomplete d = not (is_nonempty (trim d.name)) || is_empty d.target_titles

-- `save` of a render.
unfoldable pub save : (read_number : String → Option ℕ) → (drawn : Screen) → Handler Unit
unfolding send_profile load is_incomplete api_message
save read_number drawn =
    if is_incomplete drawn.draft
    then set (λ s. record s {
      step = some (if is_nonempty (trim drawn.draft.name) then 1 else 0);
      message = "A profile needs a name and at least one target role.";
    })
    else (do
      set (λ s. say "Saving only the answers shown in your review." (record s { saving = true }))
      finally
          (catch (do send_profile read_number drawn; load; set finished)
            (λ e. set (say (api_message "Unable to save this career profile." e))))
          (λ s. record s { saving = false }))

abbrev nth : ℕ → List (QuestionKey × Bool) → Option QuestionKey
nth n [] = none
nth zero ((key, optional) ∷ rest) = some key
nth (suc n) (q ∷ rest) = nth n rest

-- The question of a step, unless it is the review.
unfoldable pub question_at : ℕ → Option QuestionKey
question_at step = nth step questions

-- `leaveOpen` of a render.
unfoldable pub leave_open : (drawn : Screen) → Handler Unit
unfolding question_at left_open
leave_open drawn = elim drawn.step [
  | none ↦ give tt
  | some step ↦ elim (question_at step) [
    | none ↦ give tt
    | some key ↦ set (λ s. record s { draft = left_open key drawn.draft; step = some (step + 1) })
  ]
]

-- The button that closes the guide.
unfoldable pub close : Handler Unit
close = set (λ s. record s { step = none })

-- The countries of the location question: states or regions that are no longer offered are dropped.
unfoldable pub choose_countries :
    (lower : String → String) (regions_for_countries : List String → List String)
    → (drawn : Screen) → List String
    → Handler Unit
choose_countries lower regions_for_countries drawn countries =
    let allowed = map lower (regions_for_countries countries) in
    set (λ s. record s {
      draft = record drawn.draft {
        countries = countries;
        states_regions =
            keep (λ region. contains (lower region) allowed) drawn.draft.states_regions;
      };
    })
