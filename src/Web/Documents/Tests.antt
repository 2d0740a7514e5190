-- ===== src/Web/Documents/Tests.antt =====
-- The documents panel at concrete states.
use kall.Common.{ℕ, String, ◌≡◌, refl, true, false, none, some, List, [], ◌∷◌, arith}
use kall.Common.Json.{null}
use kall.Web.Documents.{
  TailoringChange, PreparedPayload, GeneratedDocument, Panel, initial, application_fetch,
  letter_body, document_body, finished, Answer, letter, document_read, is_stale, resume, World,
  deliver, ready,
}
use kall.Web.Documents.Loads.{resume_stale, complete, loaded, complete-loaded}
use kall.Web.Documents.Actions.{answered, restart_tailoring}
use kall.Web.Documents.Questions.{
  comes_before, rank as question_rank, insert, ordered, current, pending_count, decided,
}
use kall.Web.Documents.Merging.{overtaken_after_restart}

abbrev change : ℕ → String → String → TailoringChange
change id section status = record {
  id = id;
  section = section;
  original_text = "a";
  proposed_text = "b";
  edited_text = none;
  reason = "";
  evidence = [];
  status = status;
}

abbrev asked : PreparedPayload
asked = record {
  tailoring_proposal_id = some 4;
  cover_letter_proposal_id = some 0;
  generated_document_id = some 9;
  customize_resume = true;
  generate_cover_letter = false;
}

abbrev document : GeneratedDocument
document = record { id = 9; template_key = "standard"; rest = null }

abbrev changes : List TailoringChange
changes =
    change 1 "achievement" "pending"
    ∷ change 2 "summary" "pending"
    ∷ change 3 "role:7" "accepted"
    ∷ change 5 "role:7" "pending"
    ∷ []

abbrev panel : Panel
panel = record initial { load_seq = 1 }

abbrev shown : Panel
shown =
    (complete (some (changes, "review_required")) none (some document) 8 1 asked application_fetch
      panel).1

-- The panel after its first load: the role's gap is asked about first, and three are pending.
first_question :
    (current shown ≡ some (change 5 "role:7" "pending"))
    × (pending_count shown ≡ 3)
    × (ready shown ≡ false)
unfolding complete resume is_stale current ordered insert comes_before question_rank pending_count
    decided ready
first_question = (refl, refl, refl)

complete-loaded_example :
    complete
      (some (changes, "review_required"))
      none
      (some document)
      8
      1
      asked
      application_fetch
      panel
    ≡ (finished, loaded (some (changes, "review_required")) none (some document) asked panel)
complete-loaded_example =
    complete-loaded (some (changes, "review_required")) none (some document) asked panel

abbrev late : Answer
late = letter [] "finalized"

resume_stale_example : (resume 0 (letter_body asked) late panel).1 ≡ panel
resume_stale_example = resume_stale 0 (letter_body asked) late panel (omega arith) (cc)

abbrev one_pending : Panel
one_pending = record initial { tailoring_changes = change 2 "summary" "pending" ∷ [] }

one_current : current one_pending ≡ some (change 2 "summary" "pending")
unfolding current ordered insert
one_current = refl

abbrev to_review : Panel
to_review = record one_pending { payload = some asked; tailoring_changes_loaded = true }

abbrev world : World
world = record { panel = panel; running = (1, document_body) ∷ [] }

overtaken_after_restart_example :
    ((restart_tailoring (answered tt) world).panel.document ≡ none)
    × ((deliver 1
          (document_read document)
          (restart_tailoring (answered tt) world).running
          (restart_tailoring (answered tt) world).panel).panel.document
        ≡ some document)
overtaken_after_restart_example = overtaken_after_restart world document [] refl
