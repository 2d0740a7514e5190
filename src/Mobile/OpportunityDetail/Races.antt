-- ===== src/Mobile/OpportunityDetail/Races.antt =====
-- Handlers of a posting's screen that run between each other's awaits, and the question on returning to
-- the app: apps/mobile/src/screens/OpportunityDetailScreen.tsx.
use kall.Common.{ℕ, suc, ◌+◌, ◌≤◌, ◌≡◌, none, some, List, [], ◌∷◌, arith, if◌then◌else◌}
use kall.Mobile.Task.{Result, ok, World, Event, starts, answers, play}
use kall.Mobile.OpportunityDetail.{
  Item, Resume, JobIntelligence, Request, Response, Screen, Prompt, initial, chosen, opened,
  open_listing, returned_to_app, choose_resume, fetch_resume_studio, analyze_job,
  build_intelligence, fetch_intelligence, did_you_apply,
}
use kall.Mobile.OpportunityDetail.Laws.{offered}

abbrev pub empty : World Screen Request Response
empty = record { screen = initial; waiting = [] }

module _ (item : Item) (profile : ℕ) (answer : (r : Request) → Result (Response r)) (pick : ℕ) where
  -- The screen opens and the resumes come; the person picks one; two answers to the ranking come.
  abbrev pub picked_while_ranking : List (Event Screen Request Response)
  picked_while_ranking =
      starts (opened item profile)
      ∷ answers 0 answer
      ∷ starts (choose_resume item profile none pick)
      ∷ answers 1 answer
      ∷ answers 1 answer
      ∷ []

  -- A resume that the person picks while the resumes are ranked is shown as picked until the ranking
  -- comes, and is then replaced by the one that the ranking chooses, if that is one of the resumes.
  pub pick_is_replaced :
      (r : Resume) (rs : List Resume) (result : JobIntelligence) (id : ℕ)
      → answer fetch_resume_studio ≡ ok (r ∷ rs)
      → answer (analyze_job item.job_id) ≡ ok tt
      → answer (build_intelligence item.job_id profile) ≡ ok tt
      → answer (fetch_intelligence item.job_id profile) ≡ ok result
      → offered (r ∷ rs) (chosen result) ≡ some id
      → let w = play picked_while_ranking empty in
        (w.screen.resume_id ≡ some pick)
        × ((play (answers 1 answer ∷ []) w).screen.resume_id ≡ some id)
  unfolding play opened choose_resume
  pick_is_replaced r rs result id studio analyzed built ranked h =
      ground (arith, studio, analyzed, built, ranked, h)

-- What a person does about the listing: they open it, or come back to the app.
pub data Visit : Type 0 where
  opens comes_back : Visit

module _ (item : Item) where
  abbrev event : Visit → Event Screen Request Response
  event opens = starts (open_listing item)
  event comes_back = starts returned_to_app

  abbrev pub events : List Visit → List (Event Screen Request Response)
  events [] = []
  events (v ∷ vs) = event v ∷ events vs

abbrev pub questions : List Prompt → ℕ
questions [] = 0
questions (did_you_apply ∷ ps) = suc (questions ps)
questions (_ ∷ ps) = questions ps

abbrev pub openings : List Visit → ℕ
openings [] = 0
openings (opens ∷ vs) = suc (openings vs)
openings (comes_back ∷ vs) = openings vs

abbrev pub due : Screen → ℕ
due s = if s.ask_on_return then 1 else 0

-- However often a person opens the listing and comes back, in whatever order, each opening is asked about
-- at most once.
pub asked_once :
    (item : Item) (visits : List Visit) (w : World Screen Request Response)
    → questions (play (events item visits) w).screen.prompts
        + due (play (events item visits) w).screen
      ≤ questions w.screen.prompts + due w.screen + openings visits
unfolding play open_listing returned_to_app
asked_once item [] w = omega arith
asked_once item (opens ∷ vs) w = ground (arith, asked_once item vs (play (event item opens ∷ []) w))
asked_once item (comes_back ∷ vs) w =
    ground (arith, asked_once item vs (play (event item comes_back ∷ []) w))
