-- ===== src/Web/Documents/Actions.antt =====
-- What the buttons of the documents panel do once their request is answered: apps/web/app/applications/
-- [id]/DocumentsReviewPanel.tsx, from `reviewAll` to `generateFinalDocuments`.
use kall.Common.{
  ℕ, String, Bool, true, false, not, ◌&&◌, ◌||◌, Option, none, some, List, [], ◌∷◌, str_eq, ◌==◌,
  if◌then◌else◌, any, find,
}
use kall.Common.Json.{Json, str, member}
use kall.Common.Http.{Body, body_json}
use kall.Web.Documents.{
  TailoringChange, CoverLetterChange, Panel, World, start_load, has_proposal, truthy_id,
  PreparedPayload,
}

-- How the request of an action ends: refused with a body, answered, or thrown, which the `finally`
-- lets through.
pub data Reply {ℓ} (A : Type ℓ) : Type ℓ where
  refused : Body → Reply A
  answered : A → Reply A
  lost : Reply A

-- The panel after an action, and the toast that it shows: an error's text, or a success.
pub data Toast : Type 0 where
  no_toast : Toast
  error : String → Toast
  success : String → Toast

-- `errorMessage` of this file
abbrev detail_or : String → Option Json → String
detail_or fallback (some (str detail)) = detail
detail_or fallback _ = fallback

abbrev body_detail : Option Json → Option Json
body_detail none = none
body_detail (some body) = member "detail" body

unfoldable pub error_message : String → Body → String
error_message fallback body = detail_or fallback (body_detail (body_json body))

abbrev pub same_id : ℕ → TailoringChange → Bool
same_id id change = change.id == id

abbrev pub or_self {ℓ} : {A : Type ℓ} → A → Option A → A
or_self a none = a
or_self a (some b) = b

-- `current.map((item) => updated.find((u) => u.id === item.id) ?? item)`
unfoldable pub merge_changes : List TailoringChange → List TailoringChange → List TailoringChange
merge_changes updated [] = []
merge_changes updated (item ∷ rest) =
    or_self item (find (same_id item.id) updated) ∷ merge_changes updated rest

-- `current.map((item) => (item.id === data.id ? data : item))`
unfoldable pub replace_change : TailoringChange → List TailoringChange → List TailoringChange
replace_change data' [] = []
replace_change data' (item ∷ rest) =
    (if item.id == data'.id then data' else item) ∷ replace_change data' rest

-- The decision written into the letter's change with this identifier.
unfoldable pub mark_letter : ℕ → String → List CoverLetterChange → List CoverLetterChange
mark_letter id decision [] = []
mark_letter id decision (item ∷ rest) =
    (if item.id == id then record item { status = decision } else item)
    ∷ mark_letter id decision rest

-- The tests that a click passes before its request: the button's `disabled`, and the early return.
unfoldable pub can_act : Panel → Bool
can_act s = has_proposal s && not s.busy

unfoldable pub can_finalize_tailoring : Panel → Bool
can_finalize_tailoring s =
    has_proposal s
    && not (
        s.busy
        || (not s.tailoring_changes_loaded
            || any (λ change. str_eq change.status "pending") s.tailoring_changes))

abbrev has_letter_proposal : Option PreparedPayload → Bool
has_letter_proposal none = false
has_letter_proposal (some p) = truthy_id p.cover_letter_proposal_id

unfoldable pub can_finalize_letter : Panel → Bool
can_finalize_letter s =
    has_letter_proposal s.payload
    && not (
        s.busy
        || (not s.cover_letter_changes_loaded
            || any (λ change. str_eq change.status "pending") s.cover_letter_changes))

-- `setBusy(true)`, and the `finally`.
abbrev pub begin : Panel → Panel
begin s = record s { busy = true }

abbrev pub settle : Panel → Panel
settle s = record s { busy = false }

unfoldable pub review_all : Reply (List TailoringChange) → Panel → Panel
unfolding merge_changes
review_all (answered changes) s =
    settle (record s { tailoring_changes = merge_changes changes s.tailoring_changes })
review_all _ s = settle s

unfoldable pub decide_tailoring : Reply TailoringChange → Panel → Panel
unfolding replace_change
decide_tailoring (answered change) s =
    settle (record s { tailoring_changes = replace_change change s.tailoring_changes })
decide_tailoring _ s = settle s

unfoldable pub finalize_tailoring : Reply String → Panel → Panel
finalize_tailoring (answered status) s = settle (record s { tailoring_status = status })
finalize_tailoring _ s = settle s

unfoldable pub decide_cover_letter : ℕ → String → Reply (Unit {0}) → Panel → Panel
unfolding mark_letter
decide_cover_letter id decision (answered _) s =
    settle (record s { cover_letter_changes = mark_letter id decision s.cover_letter_changes })
decide_cover_letter id decision _ s = settle s

unfoldable pub finalize_cover_letter : Reply String → Panel → Panel
finalize_cover_letter (answered status) s = settle (record s { cover_letter_status = status })
finalize_cover_letter _ s = settle s

unfoldable pub save_to_profile : Reply String → Panel → Panel
save_to_profile (answered name) s = settle (record s { saved_name = some name })
save_to_profile _ s = settle s

-- `restartTailoring` up to its `await load()`: the panel forgets the draft, and a new call of `load`
-- starts. `draftCoverLetter` and `generateFinalDocuments` only start one.
abbrev pub forget_draft : Panel → Panel
forget_draft s = record s {
  tailoring_changes = [];
  tailoring_changes_loaded = false;
  tailoring_status = "";
  cover_letter_changes = [];
  cover_letter_changes_loaded = false;
  cover_letter_status = "";
  document = none;
  saved_name = none;
  show_answered = false;
}

unfoldable pub restart_tailoring : Reply (Unit {0}) → World → World
unfolding start_load
restart_tailoring (answered _) w = start_load (record w { panel = forget_draft w.panel })
restart_tailoring _ w = record w { panel = settle w.panel }

unfoldable pub reload_after : Reply (Unit {0}) → World → World
unfolding start_load
reload_after (answered _) w = start_load w
reload_after _ w = record w { panel = settle w.panel }

-- The toast of an action: an error's text on a refusal, and the success text where there is one.
abbrev pub toast {ℓ} : {A : Type ℓ} → (fallback : String) → (A → Toast) → Reply A → Toast
toast fallback shown (refused body) = error (error_message fallback body)
toast fallback shown (answered a) = shown a
toast fallback shown lost = no_toast
