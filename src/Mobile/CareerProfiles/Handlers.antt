-- ===== src/Mobile/CareerProfiles/Handlers.antt =====
-- The handlers of the guided profiles: apps/mobile/src/screens/CareerProfilesScreen.tsx, from `load` to
-- `uploadAndSuggest`. The timer before the lookup of related titles is the platform's.
use kall.Common.{
  ℕ, String, Bool, true, false, not, Option, none, some, List, [], ◌∷◌, ◌==◌, ltb, if◌then◌else◌,
  keep, find,
}
use kall.Common.Text.{is_nonempty}
use kall.Mobile.Task.{
  Failure, Result, ok, failed, give, call, returned, ◌>>=◌, ◌>>◌, set, await, catch, finally,
  api_message,
}
use kall.Mobile.OpportunityDetail.{or_else}
use kall.Mobile.CareerProfiles.{
  CareerProfile, PayBasis, Draft, Resume, FunctionalArea, Suggestion, SuggestedLists, ListKey,
  no_lists, fetch_career_profiles, fetch_resume_studio, fetch_functional_areas,
  suggest_career_strategy, fetch_related_titles, upload_resume, Screen, Handler,
}
use kall.Mobile.CareerProfiles.Answers.{blank, number_text, profile_draft, is_empty}
use kall.Mobile.CareerProfiles.Choices.{merge_suggestions}

abbrev pub say : String → Screen → Screen
say message s = record s { message = message }

abbrev areas_or_none : Result (List FunctionalArea) → List FunctionalArea
areas_or_none (ok areas) = areas
areas_or_none (failed e) = []

-- `Promise.all`: the three requests are sent, and the first failure of the first two is thrown.
abbrev fetch_all : Handler (List CareerProfile × List Resume × List FunctionalArea)
fetch_all = call fetch_career_profiles (λ x. call fetch_resume_studio (λ y.
    call fetch_functional_areas (λ z. do
      profiles ← returned x
      resumes ← returned y
      give (profiles, resumes, areas_or_none z))))

unfoldable pub load : Handler Unit
load =
    finally
      (catch
        (do
          (profiles, resumes, areas) ← fetch_all
          set (λ s. record s {
            profiles = profiles;
            resumes = resumes;
            functional_areas = areas;
            message = "";
          }))
        (λ _. set (say "Unable to load your career profile workspace.")))
      (λ s. record s { loading = false })

-- The lists that a suggestion offers.
abbrev pub lists_of : Option Suggestion → SuggestedLists
lists_of none key = []
lists_of (some x) ListKey.target_titles = x.target_titles
lists_of (some x) ListKey.industries = x.industries
lists_of (some x) ListKey.functional_areas = x.functional_areas
lists_of (some x) ListKey.include_keywords = x.keywords
lists_of (some x) ListKey.work_types = x.work_types
lists_of (some x) _ = []

abbrev text_or : Option String → String → String
text_or none fallback = fallback
text_or (some t) fallback = if is_nonempty t then t else fallback

abbrev basis_or : Option PayBasis → PayBasis → PayBasis
basis_or none fallback = fallback
basis_or (some basis) fallback = basis

module _ (lower : String → String) (shown : ℕ → String) where
  -- What a suggestion fills in of the draft, for a resume.
  unfoldable pub filled : (resume : ℕ) → Option Suggestion → Draft → Draft
  filled resume none d = record d { default_resume_id = some resume }
  filled resume (some x) d = record d {
    name = text_or x.profile_name d.name;
    pay_basis = basis_or x.pay_basis d.pay_basis;
    minimum_base = number_text shown x.suggested_salary_min d.minimum_base;
    target_base = number_text shown x.suggested_salary_max d.target_base;
    default_resume_id = some resume;
  }

  abbrev ready_text : Option Suggestion → String
  ready_text (some x) =
      "Suggestions are ready. Tap the ones you approve as you move through the questions."
  ready_text none = "That resume did not provide enough detail, so the questions remain open."

  abbrev unless_quiet : (lists_only : Bool) → (Screen → Screen) → Screen → Screen
  unless_quiet lists_only change s = if lists_only then s else change s

  unfoldable pub suggest_from_resume : (resume : ℕ) (lists_only : Bool) → Handler Unit
  unfolding filled merge_suggestions api_message
  suggest_from_resume resume lists_only = do
    set (λ s. record s { suggesting = true })
    set (unless_quiet lists_only (say "Reading your resume and preparing suggestions for review."))
    finally
        (catch
          (do
            suggestion ← await (suggest_career_strategy resume)
            set (
                unless_quiet lists_only
                  (λ s. record s { draft = filled resume suggestion s.draft }))
            set (λ s. record s {
              suggested_lists = merge_suggestions lower (lists_of suggestion) s.suggested_lists;
            })
            set (unless_quiet lists_only (say (ready_text suggestion))))
          (λ e. set (
            unless_quiet lists_only
              (say (api_message "Kall could not prepare suggestions from that resume." e)))))
        (λ s. record s { suggesting = false })

  abbrev only_one : List Resume → Option Resume
  only_one (r ∷ []) = some r
  only_one _ = none

  -- The resume that a profile is based on, or the only one there is.
  unfoldable pub source_of : List Resume → CareerProfile → Option Resume
  source_of resumes p =
      or_else (elim p.default_resume_id [ none ↦ none | some id ↦ find (λ r. r.id == id) resumes ])
        (only_one resumes)

  abbrev pub started : Option CareerProfile → Screen → Screen
  started profile s = record s {
    editing = profile;
    draft = elim profile [ none ↦ blank | some p ↦ profile_draft shown p ];
    suggested_lists = no_lists;
    step = some 0;
    message = elim profile [
      | none ↦ "Start with a resume for suggestions, or answer one question at a time."
      | some p ↦ "Review each answer. Kall keeps anything unfinished visible."
    ];
  }

  abbrev pub suggest_for : Option Resume → Handler Unit
  suggest_for none = give tt
  suggest_for (some r) = suggest_from_resume r.id true

  -- `begin` of a render.
  unfoldable pub begin : (drawn : Screen) → Option CareerProfile → Handler Unit
  unfolding suggest_from_resume source_of profile_draft
  begin drawn none = set (started none)
  begin drawn (some p) = do set (started (some p)); suggest_for (source_of drawn.resumes p)

  -- The lookup behind the timer, for the titles and the lists of a render.
  unfoldable pub ask_related : (titles offered : List String) → Handler Unit
  unfolding merge_suggestions
  ask_related titles offered =
      catch
        (do
          found ← await (fetch_related_titles titles offered)
          if is_empty found
              then give tt
              else set (λ s. record s {
                suggested_lists = merge_suggestions lower (only_titles found) s.suggested_lists;
              }))
        (λ _. give tt)
    where
      only_titles : List String → SuggestedLists
      only_titles found ListKey.target_titles = found
      only_titles found key = []

  -- `uploadAndSuggest` of the file that the person picked, if any, with its size where it is known.
  unfoldable pub upload_and_suggest :
      (upload_failure_message : Failure → String) → Option (String × Option ℕ) → Handler Unit
  unfolding suggest_from_resume
  upload_and_suggest upload_failure_message none = give tt
  upload_and_suggest upload_failure_message (some (file, size)) =
      if elim size [ none ↦ false | some bytes ↦ ltb 26214400 bytes ]
      then set (say "This resume is larger than the 25 MB upload limit.")
      else (do
        set (λ s. say "Uploading your resume…" (record s { uploading = true }))
        finally
            (catch
              (do
                resume ← await (upload_resume file)
                set (λ s. record s {
                  resumes = resume ∷ keep (λ item. not (item.id == resume.id)) s.resumes;
                })
                suggest_from_resume resume.id false)
              (λ e. set (say (upload_failure_message e))))
            (λ s. record s { uploading = false }))
