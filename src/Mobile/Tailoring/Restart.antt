-- ===== src/Mobile/Tailoring/Restart.antt =====
-- Starting over on the tailoring screen leaves nothing of the old draft: apps/mobile/src/screens/
-- TailoringScreen.tsx.
use kall.Common.{ℕ, String, ◌≡◌, refl, ◌∙◌, ap, sym, Bool, Option, none, some, List, [], ◌∷◌}
use kall.Mobile.Task.{Result, ok, failed, Server, End, run, ◌>>=◌, ◌>>◌, await, set, error_message}
use kall.Mobile.Tailoring.{
  ApplicationRecord, TailoringChange, TailoringProposal, DocumentDetail, CoverLetter, AtsReport,
  Request, restart_tailoring, Response, Drafts, no_drafts, Screen,
}
use kall.Mobile.Tailoring.Handlers.{
  Handler, load, load_parts, drafts_from, when_some, show_proposal, say,
}
use kall.Mobile.Tailoring.Documents.{start_afresh, restart, forget_draft}
use kall.Mobile.Tailoring.Laws.{ended, busy_with-run}
use kall.Mobile.Task.Alike.{Alike, Alike-bind, Alike-catch, Alike-finally, run-Alike}

-- The parts of the screen that belong to the draft.
pub record Draft : Type 0 where
  pub proposal : Option TailoringProposal
  pub changes : List TailoringChange
  pub drafts : Drafts
  pub document : Option DocumentDetail
  pub cover_letter : Option CoverLetter
  pub previews : List (String × String)
  pub final_preview : Option String
  pub saved_resume : Option String
  pub ats : Option AtsReport
  pub show_answered : Bool
  pub message : String

abbrev pub draft_of : Screen → Draft
draft_of s = record {
  proposal = s.proposal;
  changes = s.changes;
  drafts = s.drafts;
  document = s.document;
  cover_letter = s.cover_letter;
  previews = s.previews;
  final_preview = s.final_preview;
  saved_resume = s.saved_resume;
  ats = s.ats;
  show_answered = s.show_answered;
  message = s.message;
}

abbrev SameDraft : Screen → Screen → Type 0
SameDraft s s' = draft_of s ≡ draft_of s'

same-message :
    (message : String) (s s' : Screen) → SameDraft s s' → SameDraft (say message s) (say message s')
same-message message s s' h = ap (λ (d : Draft). record d { message = message }) h

same-document :
    (document : Option DocumentDetail) (s s' : Screen)
    → SameDraft s s'
    → SameDraft (record s { document = document }) (record s' { document = document })
same-document document s s' h = ap (λ (d : Draft). record d { document = document }) h

same-letter :
    (letter : Option CoverLetter) (s s' : Screen)
    → SameDraft s s'
    → SameDraft (record s { cover_letter = letter }) (record s' { cover_letter = letter })
same-letter letter s s' h = ap (λ (d : Draft). record d { cover_letter = letter }) h

same-proposal :
    (detail : TailoringProposal × List TailoringChange) (s s' : Screen)
    → SameDraft s s'
    → SameDraft (show_proposal detail s) (show_proposal detail s')
unfolding show_proposal
same-proposal (proposal, changes) s s' h =
    ap
      (λ (d : Draft). record d {
        proposal = some proposal;
        changes = changes;
        drafts = drafts_from changes no_drafts;
      })
      h

ruleset alike = (
  Alike-bind, Alike-catch, Alike-finally, same-message, same-document, same-letter, same-proposal,
)

when-Alike {ℓ} :
    {A : Type ℓ} (o : Option A) (act : A → Handler Unit)
    → ((a : A) → Alike SameDraft (act a))
    → Alike SameDraft (when_some o act)
unfolding when_some
when-Alike none act h = tt
when-Alike (some a) act h = h a

parts-Alike : (application : ApplicationRecord) → Alike SameDraft (load_parts application)
unfolding load_parts
parts-Alike application = search (alike, when-Alike) depth 14

load-Alike : (application : ℕ) → Alike SameDraft (load application)
unfolding load
load-Alike application = search (alike, parts-Alike)

afresh-Alike : (application : ℕ) → Alike SameDraft (start_afresh application)
unfolding start_afresh
afresh-Alike application = search (alike, load-Alike)

ended-SameDraft :
    (server : Server Request Response) (fallback : String) (v : Result Unit) (s s' : Screen)
    → SameDraft s s'
    → SameDraft (ended server fallback v s) (ended server fallback v s')
ended-SameDraft server fallback (ok _) s s' h = h
ended-SameDraft server fallback (failed e) s s' h = same-message (error_message fallback e) s s' h

module _ (server : Server Request Response) (application : ℕ)
    (h : server [] (restart_tailoring application) ≡ ok tt) where
  abbrev begun : Screen → Screen
  begun s = record s { busy = some "restart"; message = "" }

  abbrev afresh : Screen → End Screen Request Unit
  afresh s =
      run server (start_afresh application) (forget_draft (begun s))
        (restart_tailoring application ∷ [])

  abbrev work : Handler Unit
  work = do await (restart_tailoring application); set forget_draft; start_afresh application

  granted : (s : Screen) → run server work (begun s) [] ≡ afresh s
  unfolding run ◌>>=◌
  granted s = rw (run, h) refl

  restart-screen :
      (s : Screen)
      → (run server (restart application) s []).screen
        ≡ record (ended server "Unable to start over." (afresh s).value (afresh s).screen) {
          busy = none;
        }
  unfolding restart
  restart-screen s =
      let fallback : String = "Unable to start over." in
      ap (λ (e : End Screen Request Unit). e.screen)
        (busy_with-run server "restart" fallback work s [])
      ∙ ap
          (λ (e : End Screen Request Unit). record (ended server fallback e.value e.screen) {
            busy = none;
          })
          (granted s)

  -- Where the server grants a restart, what the screen shows of the draft and its message afterwards do
  -- not depend on what it showed before.
  pub restart-forgets :
      (s s' : Screen)
      → draft_of (run server (restart application) s []).screen
        ≡ draft_of (run server (restart application) s' []).screen
  restart-forgets s s' =
      let (same, value, _) =
        run-Alike SameDraft server (start_afresh application) (forget_draft (begun s))
          (forget_draft (begun s')) (restart_tailoring application ∷ []) (afresh-Alike application)
          refl in
      let fallback : String = "Unable to start over." in
      ap draft_of (restart-screen s)
      ∙ ended-SameDraft server fallback (afresh s).value (afresh s).screen (afresh s').screen same
      ∙ ap (λ v. draft_of (ended server fallback v (afresh s').screen)) value
      ∙ ap draft_of (sym (restart-screen s'))
