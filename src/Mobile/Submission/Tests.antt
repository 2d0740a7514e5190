-- ===== src/Mobile/Submission/Tests.antt =====
-- The submission section against a concrete server.
use kall.Common.{◌≡◌, refl, true, false, none, some, [], ◌∷◌}
use kall.Mobile.Task.{Result, ok, failed, api, Server}
use kall.Mobile.Submission.{
  AutofillPack, Submission, Request, fetch_autofill_pack, prepare_submission, list_submissions,
  confirm_submission, attempt_submission, move_application_stage, download_resume, save_and_share,
  Response, Section, can_record,
}

abbrev submission : Submission
submission = record {
  id = 9;
  application_id = 7;
  status = "confirmed";
  failure_detail = none;
  submitted_at = none;
}

abbrev pack : AutofillPack
pack = record { fields = []; resume = none; url = none }

abbrev answer : (r : Request) → Result (Response r)
answer (fetch_autofill_pack application) = ok pack
answer (prepare_submission application) = ok submission
answer list_submissions = ok (submission ∷ [])
answer (confirm_submission id) = ok submission
answer (attempt_submission id) = ok tt
answer (move_application_stage application stage) = ok stage
answer (download_resume resume) = failed (api "Busy.")
answer (save_and_share bytes name type) = ok tt

abbrev server : Server Request Response
server sent r = answer r

abbrev section : Section
section = record {
  pack = some pack;
  submission = some submission;
  confirmed = λ path. false;
  busy = none;
  message = "";
  stage = "approved";
}

can_be_recorded : can_record section.submission ≡ true
unfolding can_record
can_be_recorded = refl
