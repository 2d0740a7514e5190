-- ===== src/Web/Documents.antt =====
-- The documents panel of an application: apps/web/app/applications/[id]/DocumentsReviewPanel.tsx. Its
-- data, its state, and `load` as a process that other calls can interleave with. What the buttons do is
-- in Documents/Actions, the order of the questions in Documents/Questions.
pub mod Actions
pub mod Questions
pub mod Loads
pub mod Merging
pub mod Tests
use kall.Common.{
  ℕ, ◌+◌, String, Bool, true, false, not, ◌&&◌, ◌||◌, Option, none, some, List, [], ◌∷◌, str_eq,
  ◌==◌, if◌then◌else◌,
}
use kall.Common.Json.{Json}

pub record TailoringChange : Type 0 where
  pub id : ℕ
  pub section : String
  pub original_text : String
  pub proposed_text : String
  pub edited_text : Option String
  pub reason : String
  pub evidence : List Json
  pub status : String

pub record CoverLetterChange : Type 0 where
  pub id : ℕ
  pub position : ℕ
  pub proposed_text : String
  pub edited_text : Option String
  pub status : String

pub record PreparedPayload : Type 0 where
  pub tailoring_proposal_id : Option ℕ
  pub cover_letter_proposal_id : Option ℕ
  pub generated_document_id : Option ℕ
  pub customize_resume : Bool
  pub generate_cover_letter : Bool

-- A generated document by its identifier and template; `rest` is what is only shown.
pub record GeneratedDocument : Type 0 where
  pub id : ℕ
  pub template_key : String
  pub rest : Json

-- An identifier that counts as true: neither absent nor 0.
abbrev pub truthy_id : Option ℕ → Bool
truthy_id none = false
truthy_id (some id) = not (id == 0)

pub record Panel : Type 0 where
  pub payload : Option PreparedPayload
  pub tailoring_status : String
  pub tailoring_changes : List TailoringChange
  pub tailoring_changes_loaded : Bool
  pub cover_letter_status : String
  pub cover_letter_changes : List CoverLetterChange
  pub cover_letter_changes_loaded : Bool
  pub document : Option GeneratedDocument
  pub busy : Bool
  pub template_key : String
  pub saved_name : Option String
  pub show_answered : Bool
  pub load_seq : ℕ

abbrev pub initial : Panel
initial = record {
  payload = none;
  tailoring_status = "";
  tailoring_changes = [];
  tailoring_changes_loaded = false;
  cover_letter_status = "";
  cover_letter_changes = [];
  cover_letter_changes_loaded = false;
  document = none;
  busy = false;
  template_key = "standard";
  saved_name = none;
  show_answered = false;
  load_seq = 0;
}

-- Where a call of `load` waits: each stage is one of its awaits.
pub data Stage : Type 0 where
  application_fetch application_body : Stage
  proposal_fetch proposal_body letter_fetch letter_body : PreparedPayload → Stage
  document_fetch document_body finished : Stage

-- What an await gives: a response by its `ok`, or the parsed body. `threw` ends the call.
pub data Answer : Type 0 where
  responded : Bool → Answer
  application : PreparedPayload → Answer
  proposal : List TailoringChange → String → Answer
  letter : List CoverLetterChange → String → Answer
  document_read : GeneratedDocument → Answer
  threw : Answer

abbrev after_letter : PreparedPayload → Stage
after_letter p = if truthy_id p.generated_document_id then document_fetch else finished

abbrev after_proposal : PreparedPayload → Stage
after_proposal p = if truthy_id p.cover_letter_proposal_id then letter_fetch p else after_letter p

abbrev after_application : PreparedPayload → Stage
after_application p =
    if truthy_id p.tailoring_proposal_id then proposal_fetch p else after_proposal p

-- `seq !== loadSeq.current`
unfoldable pub is_stale : ℕ → Panel → Bool
is_stale seq s = not (seq == s.load_seq)

-- `if (!stale()) …`
abbrev unless_stale : ℕ → Panel → Panel → Panel
unless_stale seq changed s = if is_stale seq s then s else changed

-- One step of a call of `load` that has the number `seq`: from an await to the next one.
unfoldable pub resume : ℕ → Stage → Answer → Panel → Stage × Panel
unfolding is_stale
resume seq application_fetch (responded ok) s =
    if not ok || is_stale seq s then (finished, s) else (application_body, s)
resume seq application_body (application p) s =
    if is_stale seq s then (finished, s) else (after_application p, record s { payload = some p })
resume seq (proposal_fetch p) (responded ok) s =
    if ok
    then (proposal_body p, s)
    else (after_proposal p, unless_stale seq (record s { tailoring_changes_loaded = true }) s)
resume seq (proposal_body p) (proposal changes status) s = (
  after_proposal p,
  unless_stale seq
      (record s {
        tailoring_changes = changes;
        tailoring_status = status;
        tailoring_changes_loaded = true;
      })
      s,
)
resume seq (letter_fetch p) (responded ok) s =
    if ok
    then (letter_body p, s)
    else (after_letter p, unless_stale seq (record s { cover_letter_changes_loaded = true }) s)
resume seq (letter_body p) (letter changes status) s = (
  after_letter p,
  unless_stale seq
      (record s {
        cover_letter_changes = changes;
        cover_letter_status = status;
        cover_letter_changes_loaded = true;
      })
      s,
)
resume seq document_fetch (responded ok) s =
    if ok && not (is_stale seq s) then (document_body, s) else (finished, s)
resume seq document_body (document_read d) s = (finished, record s { document = some d })
resume seq _ _ s = (finished, s)

-- The calls of `load` that have been made, by number, and the panel.
pub record World : Type 0 where
  pub panel : Panel
  pub running : List (ℕ × Stage)

-- `const seq = ++loadSeq.current`, up to the first await.
unfoldable pub start_load : World → World
start_load w =
    let seq = w.panel.load_seq + 1 in
    record {
      panel = record w.panel { load_seq = seq };
      running = (seq, application_fetch) ∷ w.running;
    }

abbrev resumed : ℕ → Answer → Stage → List (ℕ × Stage) → Panel → World
resumed seq answer stage rest s =
    let (next, s') = resume seq stage answer s in
    record { panel = s'; running = (seq, next) ∷ rest }

abbrev waiting : ℕ × Stage → World → World
waiting entry w = record w { running = entry ∷ w.running }

-- The await of one call is answered.
unfoldable pub deliver : ℕ → Answer → List (ℕ × Stage) → Panel → World
unfolding resume
deliver seq answer [] s = record { panel = s; running = [] }
deliver seq answer ((n, stage) ∷ rest) s =
    let later = waiting (n, stage) (deliver seq answer rest s) in
    if n == seq then resumed seq answer stage rest s else later

-- What is derived from the state on every render.
abbrev wants : (PreparedPayload → Bool) → Option PreparedPayload → Bool
wants field none = false
wants field (some p) = field p

abbrev pub customizes : Panel → Bool
customizes s = wants (λ p. p.customize_resume) s.payload

abbrev pub has_letter : Panel → Bool
has_letter s = wants (λ p. p.generate_cover_letter) s.payload

abbrev pub has_proposal : Panel → Bool
has_proposal s = wants (λ p. truthy_id p.tailoring_proposal_id) s.payload

unfoldable pub nothing_to_review : Panel → Bool
nothing_to_review s = not (customizes s) && not (has_letter s)

unfoldable pub tailoring_done : Panel → Bool
tailoring_done s =
    if not (customizes s) && not (has_letter s)
    then true
    else if not (has_proposal s)
    then false
    else str_eq s.tailoring_status "finalized"

unfoldable pub cover_letter_done : Panel → Bool
cover_letter_done s = if not (has_letter s) then true else str_eq s.cover_letter_status "finalized"

abbrev pub is_some {ℓ} : {A : Type ℓ} → Option A → Bool
is_some none = false
is_some (some a) = true

-- The value that `onReady` is called with.
unfoldable pub ready : Panel → Bool
unfolding nothing_to_review tailoring_done cover_letter_done
ready s = nothing_to_review s || (tailoring_done s && (cover_letter_done s && is_some s.document))

unfoldable pub ready_for_previews : Panel → Bool
unfolding tailoring_done cover_letter_done
ready_for_previews s =
    has_proposal s && (tailoring_done s && (cover_letter_done s && not (is_some s.document)))
