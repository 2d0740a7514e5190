-- ===== src/Mobile/Tailoring/Handlers.antt =====
-- The handlers of the tailoring screen: apps/mobile/src/screens/TailoringScreen.tsx, from `load` to
-- `finalizeLetter`. A handler that the source closes over its render's state takes that state.
use kall.Common.{
  ℕ, String, false, Option, none, some, List, [], ◌∷◌, str_eq, ◌==◌, if◌then◌else◌, find,
}
use Prim.Native.String
use kall.Common.Text.{trim, is_nonempty}
use kall.Common.Decimal.{decimal}
use kall.Mobile.Task.{
  Task, give, ◌>>=◌, ◌>>◌, set, await, catch, finally, api_message, error_message,
}
use kall.Mobile.Opportunities.{truthy}
use kall.Mobile.Tailoring.{
  ApplicationRecord, TailoringChange, TailoringProposal, Decision, accepted, edited, rejected,
  Request, fetch_application, fetch_proposal, fetch_document, fetch_cover_letter, decide_change,
  review_all_changes, finalize_proposal, Response, Drafts, no_drafts, Screen,
}

abbrev pub Handler : Type 0 → Type 0
Handler A = Task Screen Request Response A

abbrev pub say : String → Screen → Screen
say message s = record s { message = message }

abbrev set_busy : Option String → Screen → Screen
set_busy key s = record s { busy = key }

-- `a || b` of two texts, the first of which may be missing.
abbrev pub text_or : Option String → String → String
text_or none fallback = fallback
text_or (some t) fallback = if is_nonempty t then t else fallback

abbrev pub put_draft : ℕ → String → Drafts → Drafts
put_draft id text drafts other = if other == id then some text else drafts other

-- `Object.fromEntries`, where a later entry replaces an earlier one.
unfoldable pub drafts_from : List TailoringChange → Drafts → Drafts
drafts_from [] drafts = drafts
drafts_from (c ∷ cs) drafts =
    drafts_from cs (put_draft c.id (text_or c.edited_text c.proposed_text) drafts)

unfoldable pub when_some {ℓ} : {A : Type ℓ} → Option A → (A → Handler Unit) → Handler Unit
when_some none act = give tt
when_some (some a) act = act a

unfoldable pub show_proposal : TailoringProposal × List TailoringChange → Screen → Screen
unfolding drafts_from
show_proposal (proposal, changes) s = record s {
  proposal = some proposal;
  changes = changes;
  drafts = drafts_from changes no_drafts;
}

abbrev load_proposal : ℕ → Handler Unit
load_proposal id = do detail ← await (fetch_proposal id); set (show_proposal detail)

abbrev load_document : ℕ → Handler Unit
load_document id = do
  detail ← await (fetch_document id)
  set (λ s. record s { document = some detail })

abbrev load_letter : ℕ → Handler Unit
load_letter id = do
  letter ← await (fetch_cover_letter id)
  set (λ s. record s { cover_letter = some letter })

unfoldable pub load_parts : ApplicationRecord → Handler Unit
load_parts application = do
  set (λ s. record s { application = some application })
  when_some (truthy application.prepared_payload.tailoring_proposal_id) load_proposal
  when_some (truthy application.prepared_payload.generated_document_id) load_document
  when_some (truthy application.prepared_payload.cover_letter_proposal_id) load_letter
  set (say "")

unfoldable pub load : (application : ℕ) → Handler Unit
unfolding api_message show_proposal
load application =
    finally
      (catch (await (fetch_application application) >>= load_parts)
        (λ e. set (say (api_message "Unable to load the tailored resume." e))))
      (λ s. record s { loading = false })

-- `run`: busy under a key while the work lasts, and the message of what it threw.
unfoldable pub busy_with : (key : String) → Handler Unit → (fallback : String) → Handler Unit
unfolding error_message
busy_with key work fallback = do
  set (λ s. say "" (set_busy (some key) s))
  finally (catch work (λ e. set (say (error_message fallback e)))) (set_busy none)

-- `current.map((item) => (item.id === updated.id ? updated : item))`
unfoldable pub replace_change : TailoringChange → List TailoringChange → List TailoringChange
replace_change updated [] = []
replace_change updated (item ∷ rest) =
    (if item.id == updated.id then updated else item) ∷ replace_change updated rest

abbrev or_self {ℓ} : {A : Type ℓ} → A → Option A → A
or_self a none = a
or_self a (some b) = b

-- `current.map((item) => result.changes.find((updated) => updated.id === item.id) ?? item)`
unfoldable pub merge_changes : List TailoringChange → List TailoringChange → List TailoringChange
merge_changes updated [] = []
merge_changes updated (item ∷ rest) =
    or_self item (find (λ u. u.id == item.id) updated) ∷ merge_changes updated rest

abbrev change_key : ℕ → String
change_key id = String.◌++◌ "change-" (decimal id)

unfoldable pub send_decision : ℕ → Decision → Option String → Handler Unit
unfolding busy_with replace_change
send_decision id status text =
    busy_with (change_key id)
      (do
        updated ← await (decide_change id status text)
        set (λ s. record s { changes = replace_change updated s.changes }))
      "Unable to save that decision."

abbrev pub trimmed : Option String → Option String
trimmed none = none
trimmed (some t) = if is_nonempty (trim t) then some (trim t) else none

abbrev pub send_edited : ℕ → Option String → Handler Unit
send_edited id none = set (say "Write the edited text before saving it.")
send_edited id (some text) = send_decision id edited (some text)

unfoldable pub decide : Drafts → TailoringChange → Decision → Handler Unit
unfolding send_decision trim
decide drafts change edited = send_edited change.id (trimmed (drafts change.id))
decide drafts change accepted = send_decision change.id accepted none
decide drafts change rejected = send_decision change.id rejected none

-- The first button of a question: the text is sent as edited if it is not what was proposed.
unfoldable pub confirm : Drafts → TailoringChange → Handler Unit
unfolding decide trim
confirm drafts change =
    if str_eq (trim (text_or (drafts change.id) "")) change.proposed_text
    then decide drafts change accepted
    else decide drafts change edited

unfoldable pub finalize : Option TailoringProposal → Handler Unit
unfolding busy_with
finalize proposal = when_some proposal (λ p.
    busy_with "finalize"
      (do
        finalized ← await (finalize_proposal p.id)
        set (λ s.
            say "Resume changes finalized. Choose a layout to generate the files."
              (record s { proposal = some finalized })))
      "Unable to finalize the proposal.")

abbrev reviewed_text : Decision → ℕ → String
reviewed_text status n =
    let verb = elim status as (λ _. String) [
      | accepted ↦ "Approved "
      | edited ↦ "Skipped "
      | rejected ↦ "Skipped "
    ] in
    String.◌++◌ verb
      (String.◌++◌ (decimal n) (String.◌++◌ " suggestion" (if n == 1 then "." else "s.")))

abbrev all_key : Decision → String
all_key accepted = "all-accepted"
all_key edited = "all-edited"
all_key rejected = "all-rejected"

unfoldable pub review_all :
    Option TailoringProposal → Decision → (section_prefix : Option String) → Handler Unit
unfolding busy_with merge_changes
review_all proposal status section_prefix = when_some proposal (λ p.
    busy_with (all_key status)
      (do
        (n, changes) ← await (review_all_changes p.id status section_prefix)
        set (λ s.
            say (reviewed_text status n) (record s { changes = merge_changes changes s.changes })))
      "Unable to update those suggestions.")

-- What is typed into the editor of a question.
unfoldable pub type_draft : ℕ → String → Handler Unit
type_draft id text = set (λ s. record s { drafts = put_draft id text s.drafts })
