-- ===== src/Mobile/Tailoring/Tests.antt =====
-- The tailoring screen at concrete states and answers.
use kall.Common.{ℕ, ◌≡◌, refl, none, some, [], ◌∷◌, arith}
use kall.Common.Text.{join}
use kall.Common.Sorting.{sort}
use kall.Mobile.Task.{◌>>◌, Result, ok, failed, api, Server, run, play}
use kall.Mobile.Tailoring.{
  TailoringChange, CoverLetter, Request, fetch_application, fetch_proposal, fetch_document,
  fetch_cover_letter, decide_change, review_all_changes, fetch_template_preview,
  fetch_document_preview, fetch_ats_check, save_document_to_profile, finalize_proposal,
  generate_document, download_document, create_cover_letter, decide_cover_letter_change,
  finalize_cover_letter, link_document, link_cover_letter, restart_tailoring, save_and_share,
  Response, Screen, initial,
}
use kall.Mobile.Tailoring.Documents.{restart, preview, preview_each}
use kall.Mobile.Tailoring.Actions.{acts, replies as answered, loads, types, events}
use kall.Mobile.Tailoring.Drafts.{HasDrafts}
use kall.Mobile.Tailoring.Drafts.Interleaved.{play-HasDrafts}
use kall.Mobile.Tailoring.Restart.{draft_of, restart-forgets}
use kall.Mobile.Tailoring.Previews.{replies, overtaken_previews}
use kall.Mobile.Tailoring.Views.{current, letter_text}
use kall.Mobile.Tailoring.Views.Order.{AsksSame, current-AsksSame}
use kall.Web.Documents as web
use kall.Web.Documents.Questions as questions

abbrev suggestion : ℕ → TailoringChange
suggestion id = record {
  id = id;
  section = "summary";
  original_text = "Tester";
  proposed_text = "Test lead";
  edited_text = none;
  reason = "";
  evidence = [];
  immutable_tokens = [];
  status = "pending";
}

abbrev refuse : {A : Type 0} → Result A
refuse = failed (api "Down.")

-- A server that only grants restarts.
abbrev answer : (r : Request) → Result (Response r)
answer (fetch_application id) = refuse
answer (fetch_proposal id) = refuse
answer (fetch_document id) = refuse
answer (fetch_cover_letter id) = refuse
answer (decide_change id status edited_text) = refuse
answer (review_all_changes id status prefix) = refuse
answer (fetch_template_preview id key) = ok (1 ∷ [])
answer (fetch_document_preview id) = refuse
answer (fetch_ats_check id) = refuse
answer (save_document_to_profile id) = refuse
answer (finalize_proposal id) = refuse
answer (generate_document id key) = refuse
answer (download_document id format) = refuse
answer (create_cover_letter id options notes) = refuse
answer (decide_cover_letter_change id decision) = refuse
answer (finalize_cover_letter id) = refuse
answer (link_document application id) = refuse
answer (link_cover_letter application id) = refuse
answer (restart_tailoring id) = ok tt
answer (save_and_share bytes name mime_type uti) = refuse

abbrev server : Server Request Response
server earlier r = answer r

abbrev asking : Screen
asking = record initial { changes = suggestion 2 ∷ suggestion 1 ∷ [] }

abbrev panel : web.Panel
panel = record web.initial { tailoring_changes = on_web 2 ∷ on_web 1 ∷ [] }
  where
    on_web : ℕ → web.TailoringChange
    on_web id = record {
      id = id;
      section = "summary";
      original_text = "Tester";
      proposed_text = "Test lead";
      edited_text = none;
      reason = "";
      evidence = [];
      status = "pending";
    }

abbrev letter : CoverLetter
letter = record {
  proposal = record { id = 1; status = "review_required"; emphasis = ""; tone = ""; length = "" };
  changes =
      record { id = 1; position = 2; proposed_text = "B"; edited_text = none; status = "pending" }
      ∷ record {
        id = 2;
        position = 1;
        proposed_text = "A";
        edited_text = some "A!";
        status = "accepted";
      }
      ∷ record {
        id = 3;
        position = 0;
        proposed_text = "C";
        edited_text = none;
        status = "rejected";
      }
      ∷ [];
}

letter_test : letter_text letter ≡ "A!\n\nB"
unfolding letter_text sort join
letter_test = refl

restart-forgets_example :
    draft_of (run server (restart 5) asking []).screen
    ≡ draft_of (run server (restart 5) initial []).screen
restart-forgets_example = restart-forgets server 5 refl asking initial

overtaken_previews_example :
    (play (replies ((0, answer) ∷ [])) (record {
      screen = record initial { preview_run = 2 };
      waiting =
          (preview (λ bytes name. name) 1 7 "standard" >> preview_each (λ bytes name. name) 1 7 [])
          ∷ [];
    })).screen.previews
    ≡ []
overtaken_previews_example =
    overtaken_previews (λ bytes name. name) 1 [] 7 "standard" []
      (record initial { preview_run = 2 }) ((0, answer) ∷ []) (omega arith) refl

current-AsksSame_example : AsksSame (current asking) (questions.current panel)
current-AsksSame_example =
    current-AsksSame asking panel ((refl, refl, refl), ((refl, refl, refl), tt))

play-HasDrafts_example :
    HasDrafts
      (play
        (events (acts (loads 5) ∷ acts (types 2 "x") ∷ answered 1 answer ∷ []))
        (record { screen = initial; waiting = [] })).screen
play-HasDrafts_example =
    play-HasDrafts (acts (loads 5) ∷ acts (types 2 "x") ∷ answered 1 answer ∷ [])
