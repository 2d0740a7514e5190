-- ===== src/Mobile/OpportunityDetail/Laws.antt =====
-- What the handlers of a posting's screen send and leave behind: apps/mobile/src/screens/
-- OpportunityDetailScreen.tsx.
use kall.Common.{
  ℕ, ◌≡◌, ◌∙◌, refl, find, Bool, true, false, not, ◌&&◌, Option, none, some, List, [], ◌∷◌, ◌++◌,
  arith, ◌==◌, if◌then◌else◌, any,
}
use kall.Mobile.Task.{Result, ok, failed, Server, run}
use kall.Mobile.OpportunityDetail.{
  Item, Resume, ResumeScore, ResumeSelection, JobIntelligence, ExistingApplication, Request,
  check_existing_application, prepare_application, Response, Screen, preferred, chosen, opened,
  prepare, track_applied, track_external_application, suppress_result, applied_external,
  fetch_resume_studio, fetch_intelligence, analyze_job, build_intelligence, or_else,
}

-- The check says that there is an application.
abbrev pub finds : Result (Option ExistingApplication) → Bool
finds (ok (some e)) = true
finds _ = false

-- The first resume that is the default one.
abbrev default_of : List Resume → Option ℕ
default_of [] = none
default_of (r ∷ rs) = if r.is_default then some r.id else default_of rs

-- The default one, or else the first.
abbrev pub fallback : (first : Resume) (rest : List Resume) → Option ℕ
fallback first rest = elim (default_of (first ∷ rest)) [ none ↦ some first.id | some id ↦ some id ]

-- The person's own choice, or else Kall's, or else the one that is scored first.
abbrev first_score : List ResumeScore → Option ℕ
first_score [] = none
first_score (x ∷ xs) = some x.resume_id

abbrev recommended : ResumeSelection → List ResumeScore → Option ℕ
recommended x scores = elim x.recommended_resume_id [
  | none ↦ first_score scores
  | some id ↦ some id
]

abbrev choice_of : Option ResumeSelection → List ResumeScore → Option ℕ
choice_of none scores = first_score scores
choice_of (some x) scores = elim x.selected_resume_id [
  | none ↦ recommended x scores
  | some id ↦ some id
]

find-default :
    (rs : List Resume)
    → default_of rs
      ≡ elim (find (λ (r : Resume). r.is_default) rs) [ none ↦ none | some r ↦ some r.id ]
find-default [] = refl
find-default (r ∷ rs) = ground (arith, find-default rs)

preferred-fallback : (r : Resume) (rs : List Resume) → preferred (r ∷ rs) ≡ fallback r rs
unfolding preferred
preferred-fallback r rs = ground (arith, find-default (r ∷ rs))

chosen-choice_of : (x : JobIntelligence) → chosen x ≡ choice_of x.selection x.scores
unfolding chosen
chosen-choice_of x = ground arith

-- The resume that a ranking chooses, if the person has it.
abbrev pub offered : List Resume → Option ℕ → Option ℕ
offered resumes none = none
offered resumes (some id) = if not (id == 0) && any (λ r. r.id == id) resumes then some id else none

abbrev best : List Resume → Result JobIntelligence → Option ℕ
best resumes (failed e) = preferred resumes
best resumes (ok result) = or_else (offered resumes (chosen result)) (preferred resumes)

-- What is preselected among some resumes after an answer to the ranking.
abbrev pub preselected : (first : Resume) (rest : List Resume) → Result JobIntelligence → Option ℕ
preselected first rest (failed e) = fallback first rest
preselected first rest (ok result) =
    or_else (offered (first ∷ rest) (choice_of result.selection result.scores))
      (fallback first rest)

best-preselected :
    (first : Resume) (rest : List Resume) (x : Result JobIntelligence)
    → best (first ∷ rest) x ≡ preselected first rest x
best-preselected first rest (failed e) = preferred-fallback first rest
best-preselected first rest (ok result) =
    rw (chosen-choice_of result, preferred-fallback first rest) refl

module _ (item : Item) (profile : ℕ) (server : Server Request Response) (s : Screen) where
  abbrev check : Request
  check = check_existing_application item.job_id item.url

  -- Preparing an application always asks first whether there is one, asks for a new one exactly if the
  -- answer is not that there is, and is no longer busy at its end.
  pub prepare-sent :
      (resume : Option ℕ) (customize cover : Bool)
      → let e = run server (prepare item profile resume customize cover) s [] in
        (e.sent
          ≡ check
            ∷ (if finds (server [] check)
                then []
                else prepare_application item.job_id profile resume customize cover ∷ []))
        × (e.screen.busy ≡ false)
  unfolding prepare run
  prepare-sent resume customize cover = ground arith

  -- The check says that there is an application that was not sent.
  abbrev pub finds_unfinished : Result (Option ExistingApplication) → Bool
  finds_unfinished (ok (some e)) = not e.completed
  finds_unfinished _ = false

  abbrev is_ok : {A : Type 0} → Result A → Bool
  is_ok (ok a) = true
  is_ok (failed e) = false

  abbrev track_it : Bool → Request
  track_it mark_anyway = track_external_application item.url item.title profile mark_anyway

  -- Recording that a person applied: the posting is hidden once it is recorded.
  abbrev recording : (mark_anyway : Bool) → List Request → List Request
  recording mark_anyway earlier =
      track_it mark_anyway
      ∷ (if is_ok (server earlier (track_it mark_anyway))
          then suppress_result item.url item.title applied_external ∷ []
          else [])

  -- An application that a person says was sent is recorded without a check if they insist, and otherwise
  -- unless the check finds one that was not sent; the posting is hidden exactly if it was recorded.
  pub track_applied-sent :
      (mark_anyway : Bool)
      → let e = run server (track_applied item profile mark_anyway) s [] in
        (e.sent ≡ (
          if mark_anyway
          then recording true []
          else check
            ∷ (if finds_unfinished (server [] check) then [] else recording false (check ∷ []))))
        × (e.screen.busy ≡ false)
  unfolding track_applied run
  track_applied-sent mark_anyway = ground arith

  -- The server's three answers to the ranking of the resumes, in the order that it needs.
  abbrev ranking : Result JobIntelligence
  ranking =
      let studio = fetch_resume_studio ∷ [] in
      let analyze = analyze_job item.job_id in
      let build = build_intelligence item.job_id profile in
      elim (server studio analyze) [
        | failed e ↦ failed e
        | ok _ ↦ elim (server (studio ++ analyze ∷ []) build) [
          | failed e ↦ failed e
          | ok _ ↦
              server ((studio ++ analyze ∷ []) ++ build ∷ [])
                (fetch_intelligence item.job_id profile)
        ]
      ]

  opened-best :
      (r : Resume) (rs : List Resume)
      → s.cancelled ≡ false
      → server [] fetch_resume_studio ≡ ok (r ∷ rs)
      → let e = run server (opened item profile) s [] in
        (e.screen.resume_id ≡ best (r ∷ rs) ranking)
        × (e.screen.resumes ≡ r ∷ rs)
        × (e.screen.ranking ≡ false)
  unfolding opened run
  opened-best r rs h k = ground (arith, k)

  -- Opening the screen of a person who has resumes, while it stays open, preselects the one that
  -- they have chosen for the posting, or else the one that Kall recommends, or else the one that is
  -- scored first, if that is one of theirs; if it is not, or if the ranking fails, it preselects
  -- the default one or else the first.
  pub opened-resume :
      (r : Resume) (rs : List Resume)
      → s.cancelled ≡ false
      → server [] fetch_resume_studio ≡ ok (r ∷ rs)
      → let e = run server (opened item profile) s [] in
        (e.screen.resume_id ≡ preselected r rs ranking)
        × (e.screen.resumes ≡ r ∷ rs)
        × (e.screen.ranking ≡ false)
  opened-resume r rs h k =
      let b = opened-best r rs h k in (b.0 ∙ best-preselected r rs ranking, b.1, b.2)
