-- ===== src/Mobile/OpportunityDetail/Tests.antt =====
-- The screen of one posting against a concrete server.

use kall.Common.{◌≡◌, refl, true, false, none, some, [], ◌∷◌, head}
use kall.Common.Sorting.{sort}
use kall.Mobile.Task.{Result, ok, failed, api, Server, run}
use kall.Mobile.OpportunityDetail.{
  Item, Resume, JobIntelligence, ExistingApplication, Request, fetch_resume_studio, analyze_job,
  build_intelligence, fetch_intelligence, select_resume, check_existing_application,
  track_external_application, suppress_result, update_opportunity_state, prepare_application,
  Response, Screen, initial, opened, prepare, describe_existing, chosen, preferred,
}
use kall.Mobile.OpportunityDetail.Ranking.{ranked_resumes}
use kall.Mobile.OpportunityDetail.Laws.{offered, prepare-sent, opened-resume}

abbrev item : Item
item = record { job_id = 7; title = "QA"; company = "Ex"; url = "https://ex.org/qa" }

abbrev first : Resume
first = record { id = 1; name = "General"; is_default = true }

abbrev second : Resume
second = record { id = 2; name = "Testing"; is_default = false }

abbrev result : JobIntelligence
result = record {
  scores =
      record { resume_id = 2; total_score = 80; explanation = []; gaps = [] }
      ∷ record { resume_id = 1; total_score = 60; explanation = []; gaps = [] }
      ∷ [];
  coverage = [];
  selection = none;
}

abbrev started : ExistingApplication
started = record {
  id = 4;
  stage = "in_review";
  completed = false;
  created_at = some "2026-01-02";
  submitted_at = none;
  company = none;
  title = none;
}

abbrev answer : (r : Request) → Result (Response r)
answer fetch_resume_studio = ok (first ∷ second ∷ [])
answer (analyze_job job) = ok tt
answer (build_intelligence job profile) = ok tt
answer (fetch_intelligence job profile) = ok result
answer (select_resume job profile resume) = ok tt
answer (check_existing_application job url) = ok (some started)
answer (track_external_application url title profile mark) = ok tt
answer (suppress_result url title reason) = failed (api "Busy.")
answer (update_opportunity_state id state) = ok tt
answer (prepare_application job profile resume customize cover) =
    ok (record { id = 5; status = "review" })

abbrev server : Server Request Response
server earlier r = answer r

abbrev shown : Screen
shown = record initial { resumes = first ∷ second ∷ []; intelligence = some result }

describe_existing_test :
    describe_existing (λ t. t) started
    ≡ "You already started this application on 2026-01-02; it is in in review."
unfolding describe_existing
describe_existing_test = refl

prepare-sent_example :
    ((run server (prepare item 3 none true true) initial []).sent
      ≡ check_existing_application 7 "https://ex.org/qa" ∷ [])
    × ((run server (prepare item 3 none true true) initial []).screen.busy ≡ false)
prepare-sent_example = prepare-sent item 3 server initial none true true

opened-resume_example :
    ((run server (opened item 3) initial []).screen.resume_id ≡ some 2)
    × ((run server (opened item 3) initial []).screen.resumes ≡ first ∷ second ∷ [])
    × ((run server (opened item 3) initial []).screen.ranking ≡ false)
unfolding chosen preferred
opened-resume_example = opened-resume item 3 server initial first (second ∷ []) refl refl

best_is_second : head (ranked_resumes shown) ≡ some second
unfolding ranked_resumes sort
best_is_second = refl

choice : offered (first ∷ second ∷ []) (chosen result) ≡ some 2
unfolding chosen
choice = refl
