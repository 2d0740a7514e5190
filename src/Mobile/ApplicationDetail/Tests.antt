-- ===== src/Mobile/ApplicationDetail/Tests.antt =====
-- The review of an application against a concrete server.
use kall.Common.{◌≡◌, refl, true, false, none, some, [], ◌∷◌}
use kall.Mobile.Task.{Result, ok, failed, api, Server, run}
use kall.Mobile.ApplicationDetail.{
  ReviewData, Request, post_review, get_review, approve_review, save_answer, confirm_review,
  Response, Drafts, Screen, save_answers,
}
use kall.Mobile.ApplicationDetail.Package.{Package, documents_ready, documents_ready-eq_ready}
use kall.Web.Documents as web

abbrev review : ReviewData
review = record {
  status = "ready";
  readiness_issues = [];
  checklist = record {
    documents_confirmed = true;
    answers_confirmed = true;
    sensitive_fields_confirmed = true;
    attestations_confirmed = true;
  };
  questions = [];
  answers =
      record { id = 1; question_id = 1; value = some "Yes"; status = "saved" }
      ∷ record { id = 2; question_id = 2; value = none; status = "draft" }
      ∷ [];
}

abbrev answer : (r : Request) → Result (Response r)
answer (post_review application) = ok tt
answer (get_review application) = ok review
answer (approve_review application) = ok tt
answer (save_answer application id value) = failed (api "Busy.")
answer (confirm_review application checklist) = ok tt

abbrev server : Server Request Response
server sent r = answer r

abbrev typed : Drafts
typed id = some "No"

abbrev screen : Screen
screen = record {
  stage = "review";
  review = some review;
  loading = false;
  busy = false;
  message = "";
  answer_drafts = typed;
  documents_ready = true;
}

refused :
    (run server
      (save_answers 7 typed review.answers none)
      (record screen { busy = true; message = "" })
      []).value
    ≡ failed (api "Busy.")
unfolding save_answers run
refused = refl

abbrev bundle : Package
bundle = record {
  payload = none;
  tailoring_status = none;
  letter_status = none;
  has_document = false;
  loaded = true;
}

documents_ready-eq_ready_example : documents_ready bundle ≡ web.ready web.initial
documents_ready-eq_ready_example =
    documents_ready-eq_ready web.initial bundle (refl, refl, refl, refl) refl
