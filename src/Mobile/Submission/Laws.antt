-- ===== src/Mobile/Submission/Laws.antt =====
-- What the buttons of the submission section send and leave behind:
-- apps/mobile/src/components/SubmissionSection.tsx.
use kall.Common.{
  ℕ, String, ◌≡◌, refl, sym, ap, inl, inr, Bool, Bool-cases, true, false, Option, none, some, List,
  [], ◌∷◌, arith, str_eq, eq_iff, ◌==◌, if◌then◌else◌, keep, contains, All, find,
}
use kall.Mobile.Task.{Result, ok, failed, Server, run, api_message, ◌>>=◌, catch, finally}
use kall.Mobile.Submission.{
  Submission, Request, fetch_autofill_pack, list_submissions, attempt_submission, Response, Section,
  StageOption, all_options, stage_options, after_approval, load, record_submitted, can_prepare,
  can_confirm, can_record,
}

abbrev is_ok : {A : Type 0} → Result A → Bool
is_ok (ok a) = true
is_ok (failed e) = false

abbrev pub message_of : Result Unit → String
message_of (ok _) = "Recorded as submitted."
message_of (failed e) = api_message "Unable to record the submission." e

abbrev pub recorded : (now : String) → Submission → Result Unit → Section → Section
recorded now x (ok _) s = record s {
  submission = some (record x { status = "submitted"; submitted_at = some now });
  stage = "submitted";
}
recorded now x (failed e) s = s

module _ (server : Server Request Response) (now : String) (x : Submission) (s : Section) where
  -- Recording a submission sends one attempt for it. If that is granted, the submission and the stage
  -- are the submitted ones; if not, both stay; either way the person is told, and nothing is busy.
  pub record_submitted-end :
      let e = run server (record_submitted now (some x)) s [] in
      let answer = server [] (attempt_submission x.id) in
      e ≡ record {
        value = ok tt;
        screen = record (recorded now x answer s) { busy = none; message = message_of answer };
        sent = attempt_submission x.id ∷ [];
      }
  unfolding record_submitted run ◌>>=◌ catch finally api_message
  record_submitted-end = ground arith

abbrev pub Moves : String → StageOption → Type 0
Moves stage o = str_eq o.value stage ≡ false

absent :
    (value stage : String) (from : List String)
    → contains value from ≡ false
    → contains stage from ≡ true
    → str_eq value stage ≡ false
absent value stage from h k = elim (Bool-cases (str_eq value stage)) [
  | inl same ↦ let equal : value ≡ stage = (eq_iff value stage).0 same in cc
  | inr other ↦ other
]

abbrev Leaves : StageOption → Type 0
Leaves o = contains o.value o.from ≡ false

kept-Moves :
    (stage : String) (xs : List StageOption)
    → All Leaves xs
    → All (Moves stage) (keep (λ o. contains stage o.from) xs)
kept-Moves stage [] h = tt
kept-Moves stage (o ∷ os) (h, hs) = elim (Bool-cases (contains stage o.from)) [
  | inl offered ↦ rw offered (absent o.value stage o.from h offered, kept-Moves stage os hs)
  | inr hidden ↦ rw hidden (kept-Moves stage os hs)
]

-- Every stage that is offered is another one than the application is in.
pub stage_options-Moves : (stage : String) → All (Moves stage) (stage_options stage)
unfolding stage_options
stage_options-Moves stage = kept-Moves stage all_options (refl, (refl, (refl, (refl, (refl, tt)))))

confirmed_text : (x : Submission) → can_record (some x) ≡ true → x.status ≡ "confirmed"
unfolding can_record
confirmed_text x h = (eq_iff x.status "confirmed").0 h

awaiting_text : (x : Submission) → can_confirm (some x) ≡ true → x.status ≡ "awaiting_confirmation"
unfolding can_confirm
awaiting_text x h = (eq_iff x.status "awaiting_confirmation").0 h

abbrev with_status : Submission → String → Option Submission
with_status x status = some (record x { status = status })

-- At most one of the three buttons of a record is shown.
pub one_button :
    (x : Option Submission)
    → (can_confirm x ≡ true → (can_prepare x ≡ false) × (can_record x ≡ false))
      × (can_record x ≡ true → can_prepare x ≡ false)
unfolding can_prepare can_confirm can_record
one_button none = ((λ h. (sym h, refl)), (λ h. sym h))
one_button (some x) = (
  (λ h. (
    ap (λ t. can_prepare (with_status x t)) (awaiting_text x h),
    ap (λ t. can_record (with_status x t)) (awaiting_text x h),
  )),
  (λ h. ap (λ t. can_prepare (with_status x t)) (confirmed_text x h)),
)

module _ (server : Server Request Response) (application : ℕ) (s : Section) where
  abbrev pub listed : Result (List Submission) → Option Submission
  listed (ok xs) = find (λ x. x.application_id == application) xs
  listed (failed e) = none

  -- Loading sends nothing before the application is approved and leaves the section as it is. From then on it
  -- asks for what can be filled in and for the submissions, and shows the application's first one, if the
  -- second answer has one, whatever the first answer is.
  pub load-listed :
      (stage : String)
      → let e = run server (load application stage) s [] in
        (e.sent ≡ (
          if after_approval stage
          then fetch_autofill_pack application ∷ list_submissions ∷ []
          else []))
        × (e.screen.submission ≡ (
            if after_approval stage
            then listed (server (fetch_autofill_pack application ∷ []) list_submissions)
            else s.submission))
  unfolding load run
  load-listed stage = ground (arith, after_approval stage)
