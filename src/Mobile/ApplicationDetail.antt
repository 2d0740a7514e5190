-- ===== src/Mobile/ApplicationDetail.antt =====
-- The review of an application on the phone: apps/mobile/src/screens/ApplicationDetailScreen.tsx with the
-- calls of apps/mobile/src/api/applications.ts, and what apps/mobile/src/components/PackageReview.tsx
-- tells it of the documents.
pub mod Saving
pub mod Package
pub mod Tests
use kall.Common.{
  ℕ, String, Bool, true, false, not, ◌&&◌, ◌||◌, Option, none, some, List, [], ◌∷◌, str_eq, ◌==◌,
  if◌then◌else◌,
}
use kall.Mobile.Task.{
  Failure, Result, ok, failed, Task, give, throw, call, set, await, catch, finally, api_message,
  ◌>>=◌, ◌>>◌,
}
use kall.Mobile.Tailoring.Handlers.{text_or}

pub record Question : Type 0 where
  pub id : ℕ
  pub prompt : String
  pub category : String
  pub sensitive : Bool
  pub required : Bool

pub record Answer : Type 0 where
  pub id : ℕ
  pub question_id : ℕ
  pub value : Option String
  pub status : String

-- The four items of the checklist; one that is missing counts as not confirmed.
pub record Checklist : Type 0 where
  pub documents_confirmed : Bool
  pub answers_confirmed : Bool
  pub sensitive_fields_confirmed : Bool
  pub attestations_confirmed : Bool

pub record ReviewData : Type 0 where
  pub status : String
  pub readiness_issues : List String
  pub checklist : Checklist
  pub questions : List Question
  pub answers : List Answer

pub data Request : Type 0 where
  post_review get_review approve_review : (application : ℕ) → Request
  save_answer : (application answer : ℕ) (value : String) → Request
  confirm_review : (application : ℕ) → Checklist → Request

abbrev pub Response : Request → Type 0
Response (get_review application) = ReviewData
Response _ = Unit

abbrev pub Drafts : Type 0
Drafts = ℕ → Option String

pub record Screen : Type 0 where
  pub stage : String
  pub review : Option ReviewData
  pub loading : Bool
  pub busy : Bool
  pub message : String
  pub answer_drafts : Drafts
  pub documents_ready : Bool

abbrev pub Handler : Type 0 → Type 0
Handler A = Task Screen Request Response A

abbrev pub say : String → Screen → Screen
say message s = record s { message = message }

abbrev pub set_busy : Bool → Screen → Screen
set_busy b s = record s { busy = b }

abbrev pub put_draft : ℕ → String → Drafts → Drafts
put_draft id text drafts other = if other == id then some text else drafts other

-- `Object.fromEntries` of the answers, where a later entry replaces an earlier one.
unfoldable pub drafts_from : List Answer → Drafts → Drafts
drafts_from [] drafts = drafts
drafts_from (a ∷ as') drafts = drafts_from as' (put_draft a.id (text_or a.value "") drafts)

-- `fetchReview`: the review is made if there is none, and then read.
unfoldable pub fetch_review : (application : ℕ) → Handler ReviewData
fetch_review application = do await (post_review application); await (get_review application)

unfoldable pub show_review : ReviewData → Screen → Screen
unfolding drafts_from
show_review review s = record s {
  review = some review;
  answer_drafts = drafts_from review.answers (λ _. none);
}

unfoldable pub load : (application : ℕ) → Handler Unit
unfolding ◌>>=◌ catch finally fetch_review show_review
load application =
    finally
      (catch (do review ← fetch_review application; set (show_review review))
        (λ _. set (say "Unable to load this application for review.")))
      (λ s. record s { loading = false })

unfoldable pub handle_approve : (application : ℕ) → Handler Unit
unfolding ◌>>=◌ catch finally load api_message
handle_approve application = do
  set (λ s. say "" (set_busy true s))
  finally
      (catch
        (do
          await (approve_review application)
          set (λ s. record s { stage = "approved" })
          set (say "Application approved. Kall can now pre-fill the employer's form.")
          load application)
        (λ e. set (say (api_message "Complete every review item before approval." e))))
      (set_busy false)

-- The first failure of requests that are sent together.
abbrev or_first : Option Failure → Result Unit → Option Failure
or_first (some e) x = some e
or_first none (ok _) = none
or_first none (failed e) = some e

-- `Promise.all` of the answers: every one is sent, and the first that fails ends the whole.
unfoldable pub save_answers :
    (application : ℕ) → Drafts → List Answer → (first : Option Failure) → Handler Unit
save_answers application drafts [] none = give tt
save_answers application drafts [] (some e) = throw e
save_answers application drafts (a ∷ as') first =
    call (save_answer application a.id (text_or (drafts a.id) ""))
      (λ x. save_answers application drafts as' (or_first first x))

-- The work of `saveReview`.
unfoldable pub save_work : (application : ℕ) → Drafts → ReviewData → Handler Unit
unfolding load save_answers
save_work application drafts review = do
  save_answers application drafts review.answers none
  await (confirm_review application review.checklist)
  set (say "Review saved.")
  load application

abbrev pub save_refused : Failure → Handler Unit
save_refused e = set (say (api_message "Unable to save this review." e))

unfoldable pub save_reviewed : (application : ℕ) → Drafts → ReviewData → Handler Unit
unfolding save_work
save_reviewed application drafts review = do
  set (λ s. say "" (set_busy true s))
  finally (catch (save_work application drafts review) save_refused) (set_busy false)

-- `saveReview` of the screen that the button was drawn on.
unfoldable pub save_review : (application : ℕ) → (drawn : Screen) → Handler Unit
unfolding save_reviewed
save_review application drawn = elim drawn.review [
  | none ↦ give tt
  | some review ↦ save_reviewed application drawn.answer_drafts review
]

-- What is typed into the field of an answer: the drafts are those of the render.
unfoldable pub type_answer : (drawn : Screen) → ℕ → String → Handler Unit
type_answer drawn id text =
    set (λ s. record s { answer_drafts = put_draft id text drawn.answer_drafts })

pub data Item : Type 0 where
  documents answers sensitive_fields attestations : Item

abbrev mark : Item → Bool → Checklist → Checklist
mark documents on c = record c { documents_confirmed = on }
mark answers on c = record c { answers_confirmed = on }
mark sensitive_fields on c = record c { sensitive_fields_confirmed = on }
mark attestations on c = record c { attestations_confirmed = on }

-- A switch of the checklist is locked for the documents until they are ready.
unfoldable pub is_locked : Screen → Item → Bool
is_locked s documents = not s.documents_ready
is_locked s _ = false

abbrev marked : Item → Bool → ReviewData → ReviewData
marked item on review = record review { checklist = mark item on review.checklist }

unfoldable pub switch_item : (drawn : Screen) → Item → Bool → Handler Unit
unfolding is_locked
switch_item drawn item on = if is_locked drawn item then give tt else elim drawn.review [
  | none ↦ give tt
  | some review ↦ set (λ s. record s { review = some (marked item on review) })
]

abbrev is_empty {ℓ} : {A : Type ℓ} → List A → Bool
is_empty [] = true
is_empty (x ∷ xs) = false

-- `canApprove`, which enables the button of `handleApprove`.
unfoldable pub can_approve : Screen → Bool
can_approve s = elim s.review [
  | none ↦ false
  | some review ↦ str_eq review.status "ready" && is_empty review.readiness_issues
]

unfoldable pub in_review : Screen → Bool
in_review s = str_eq s.stage "review" || str_eq s.stage "preparing"

unfoldable pub shows_interview_prep : Screen → Bool
shows_interview_prep s = str_eq s.stage "submitted" || str_eq s.stage "interview"
