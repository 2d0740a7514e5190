-- ===== src/Mobile/Submission.antt =====
-- The section of an application that records its submission: apps/mobile/src/components/SubmissionSection.tsx
-- with the calls of apps/mobile/src/api/submissions.ts.
pub mod Laws
pub mod Tests
use kall.Common.{
  ℕ, String, Bool, true, not, ◌||◌, Option, none, some, List, [], ◌∷◌, str_eq, ◌==◌, if◌then◌else◌,
  keep, contains, find,
}
use Prim.Native.String
use kall.Common.Text.{is_nonempty}
use kall.Mobile.Files.{safe_file_name}
use kall.Mobile.Task.{
  Result, ok, failed, Task, give, call, ◌>>=◌, ◌>>◌, set, await, catch, finally, api_message,
}

-- A field by what the section decides with; its value is what it shows.
pub record AutofillField : Type 0 where
  pub path : String
  pub label : String
  pub value : String
  pub requires_confirmation : Bool

pub record PackResume : Type 0 where
  pub resume_id : ℕ
  pub filename : String
  pub mime_type : String

pub record AutofillPack : Type 0 where
  pub fields : List AutofillField
  pub resume : Option PackResume
  pub url : Option String

pub record Submission : Type 0 where
  pub id : ℕ
  pub application_id : ℕ
  pub status : String
  pub failure_detail : Option String
  pub submitted_at : Option String

pub data Request : Type 0 where
  fetch_autofill_pack prepare_submission : (application : ℕ) → Request
  list_submissions : Request
  confirm_submission attempt_submission : (submission : ℕ) → Request
  move_application_stage : (application : ℕ) (stage : String) → Request
  download_resume : (resume : ℕ) → Request
  save_and_share : (bytes : List ℕ) (name type : String) → Request

-- A download is its bytes and their type; a move is the stage that the application has then.
abbrev pub Response : Request → Type 0
Response (fetch_autofill_pack application) = AutofillPack
Response (prepare_submission application) = Submission
Response list_submissions = List Submission
Response (confirm_submission submission) = Submission
Response (move_application_stage application stage) = String
Response (download_resume resume) = List ℕ × String
Response _ = Unit

-- The section with the stage of the screen around it, which `onStage` sets.
pub record Section : Type 0 where
  pub pack : Option AutofillPack
  pub submission : Option Submission
  pub confirmed : String → Bool
  pub busy : Option String
  pub message : String
  pub stage : String

abbrev pub Handler : Type 0 → Type 0
Handler A = Task Section Request Response A

abbrev pub say : String → Section → Section
say message s = record s { message = message }

abbrev pub set_busy : Option String → Section → Section
set_busy key s = record s { busy = key }

pub record StageOption : Type 0 where
  pub value : String
  pub label : String
  pub from : List String

abbrev option : String → String → List String → StageOption
option value label from = record { value = value; label = label; from = from }

-- `STAGE_OPTIONS`
abbrev pub all_options : List StageOption
all_options =
    option "submitted" "I submitted it" ("approved" ∷ [])
    ∷ option "interview" "Interview scheduled" ("approved" ∷ "submitted" ∷ [])
    ∷ option "submitted" "Back to submitted" ("interview" ∷ [])
    ∷ option "closed" "Closed"
        ("preparing" ∷ "review" ∷ "approved" ∷ "submitted" ∷ "interview" ∷ "rejected" ∷ [])
    ∷ option "rejected" "Rejected" ("submitted" ∷ "interview" ∷ "approved" ∷ [])
    ∷ []

-- `stageOptions`
unfoldable pub stage_options : (stage : String) → List StageOption
stage_options stage = keep (λ o. contains stage o.from) all_options

-- `AFTER_APPROVAL.has(stage)`
unfoldable pub after_approval : (stage : String) → Bool
after_approval stage = contains stage ("approved" ∷ "submitted" ∷ "interview" ∷ [])

-- What is filled in without asking, and what only with the person's switch.
unfoldable pub auto : Section → List AutofillField
auto s = elim s.pack [ none ↦ [] | some p ↦ keep (λ x. not x.requires_confirmation) p.fields ]

unfoldable pub needs_confirmation : Section → List AutofillField
needs_confirmation s = elim s.pack [
  | none ↦ []
  | some p ↦ keep (λ x. x.requires_confirmation) p.fields
]

-- The text beside a switch.
unfoldable pub shown_value : Section → AutofillField → String
shown_value s field = if s.confirmed field.path then field.value else "Prefer not to answer"

unfoldable pub switch_field : AutofillField → Bool → Handler Unit
switch_field field on =
    set (λ s. record s {
      confirmed = λ path. if str_eq path field.path then on else s.confirmed path;
    })

abbrev or_no_pack : Result AutofillPack → Option AutofillPack
or_no_pack (ok pack) = some pack
or_no_pack (failed e) = none

abbrev or_no_submissions : Result (List Submission) → List Submission
or_no_submissions (ok submissions) = submissions
or_no_submissions (failed e) = []

-- `load` of a render: both requests are sent, and a failure of one is an empty answer.
unfoldable pub load : (application : ℕ) (stage : String) → Handler Unit
unfolding after_approval
load application stage =
    if not (after_approval stage)
    then give tt
    else call (fetch_autofill_pack application) (λ pack. call list_submissions (λ submissions.
      set (λ s. record s {
        pack = or_no_pack pack;
        submission =
            find (λ item. item.application_id == application) (or_no_submissions submissions);
      })))

abbrev tell : Option String → Section → Section
tell none s = s
tell (some text) s = if is_nonempty text then say text s else s

-- `run`: busy under a key while the work lasts, and what it returns or throws as the message.
unfoldable pub busy_with :
    (key : String) → Handler (Option String) → (fallback : String) → Handler Unit
unfolding api_message
busy_with key work fallback = do
  set (λ s. say "" (set_busy (some key) s))
  finally (catch (do result ← work; set (tell result)) (λ e. set (say (api_message fallback e))))
      (set_busy none)

abbrev or_type : String → String → String
or_type type fallback = if is_nonempty type then type else fallback

abbrev share_of : PackResume → Handler Unit
share_of resume =
    busy_with "resume"
      (do
        (bytes, type) ← await (download_resume resume.resume_id)
        await
            (save_and_share bytes (safe_file_name resume.filename) (or_type resume.mime_type type))
        give none)
      "Unable to fetch the resume file."

unfoldable pub share_resume : Option AutofillPack → Handler Unit
unfolding busy_with safe_file_name
share_resume none = give tt
share_resume (some pack) = elim pack.resume [ none ↦ give tt | some resume ↦ share_of resume ]

abbrev put_submission : Submission → Section → Section
put_submission next s = record s { submission = some next }

unfoldable pub prepare : (application : ℕ) → Handler Unit
unfolding busy_with
prepare application =
    busy_with "prepare"
      (do
        next ← await (prepare_submission application)
        set (put_submission next)
        give (some "Submission record prepared."))
      "Unable to prepare the submission record."

unfoldable pub confirm : Option Submission → Handler Unit
unfolding busy_with
confirm none = give tt
confirm (some submission) =
    busy_with "confirm"
      (do
        next ← await (confirm_submission submission.id)
        set (put_submission next)
        give (if str_eq next.status "confirmed" then some "Confirmed." else none))
      "Unable to confirm the submission record."

-- `recordSubmitted` of the submission that it captured, at a time.
unfoldable pub record_submitted : (now : String) → Option Submission → Handler Unit
unfolding busy_with
record_submitted now none = give tt
record_submitted now (some submission) =
    busy_with "attempt"
      (do
        await (attempt_submission submission.id)
        set (put_submission (record submission { status = "submitted"; submitted_at = some now }))
        set (λ s. record s { stage = "submitted" })
        give (some "Recorded as submitted."))
      "Unable to record the submission."

unfoldable pub move : (application : ℕ) (next : String) → Handler Unit
unfolding busy_with
move application next =
    busy_with (String.◌++◌ "stage-" next)
      (do
        stage ← await (move_application_stage application next)
        set (λ s. record s { stage = stage })
        give (some (String.◌++◌ "Moved to " (String.◌++◌ next "."))))
      "Unable to update the stage."

abbrev status_of : Option Submission → String
status_of none = ""
status_of (some x) = x.status

-- Which of the three buttons of the record are shown.
unfoldable pub can_prepare : Option Submission → Bool
can_prepare none = true
can_prepare (some x) =
    str_eq x.status "blocked"
    || str_eq x.status "needs_manual_completion"
    || str_eq x.status "prepared"

unfoldable pub can_confirm : Option Submission → Bool
can_confirm x = str_eq (status_of x) "awaiting_confirmation"

unfoldable pub can_record : Option Submission → Bool
can_record x = str_eq (status_of x) "confirmed"
