-- ===== src/Mobile/Tailoring/Documents.antt =====
-- The tailoring screen's handlers for documents and letters, and its two effects that fetch images:
-- apps/mobile/src/screens/TailoringScreen.tsx.
use kall.Common.{
  ℕ, ◌+◌, String, false, Option, none, some, List, [], ◌∷◌, str_eq, ◌==◌, if◌then◌else◌,
}
use Prim.Native.String
use kall.Common.Text.{trim, is_nonempty}
use kall.Common.Decimal.{decimal}
use kall.Mobile.Files.{safe_file_name}
use kall.Mobile.Task.{give, read, ◌>>=◌, ◌>>◌, set, await, catch}
use kall.Mobile.Tailoring.{
  TailoringProposal, ArtifactFormat, pdf, docx, txt, Artifact, DocumentDetail, CoverLetter,
  CoverLetterChange, LetterOptions, Decision, fetch_document, fetch_cover_letter,
  fetch_template_preview, fetch_document_preview, fetch_ats_check, save_document_to_profile,
  generate_document, download_document, create_cover_letter, decide_cover_letter_change,
  finalize_cover_letter, link_document, link_cover_letter, restart_tailoring, save_and_share,
  no_drafts, Screen,
}
use kall.Mobile.Tailoring.Handlers.{Handler, say, load, busy_with, when_some}

abbrev pub forget_draft : Screen → Screen
forget_draft s = record s {
  proposal = none;
  changes = [];
  drafts = no_drafts;
  document = none;
  cover_letter = none;
  previews = [];
  final_preview = none;
  saved_resume = none;
  ats = none;
  show_answered = false;
}

unfoldable pub start_afresh : (application : ℕ) → Handler Unit
start_afresh application = do load application; set (say "Starting over with a fresh draft.")

-- The button "Start over" of the dialog of `restart`.
unfoldable pub restart : (application : ℕ) → Handler Unit
unfolding busy_with load start_afresh
restart application =
    busy_with "restart"
      (do await (restart_tailoring application); set forget_draft; start_afresh application)
      "Unable to start over."

unfoldable pub save_to_profile : Option DocumentDetail → Handler Unit
unfolding busy_with
save_to_profile document = when_some document (λ d.
    busy_with "save-profile"
      (do
        name ← await (save_document_to_profile d.id)
        set (λ s.
            say (String.◌++◌ "Saved to your resumes as " (String.◌++◌ name "."))
              (record s { saved_resume = some name })))
      "Unable to save this resume to your profile.")

unfoldable pub generate :
    (application : ℕ) → Option TailoringProposal → (template_key : String) → Handler Unit
unfolding busy_with
generate application proposal template_key = when_some proposal (λ p.
    busy_with "generate"
      (do
        id ← await (generate_document p.id template_key)
        detail ← await (fetch_document id)
        set (λ s. record s { document = some detail })
        await (link_document application id)
        set (say "Resume files are ready."))
      "Unable to generate the resume files.")

abbrev pub extension : ArtifactFormat → String
extension pdf = "pdf"
extension docx = "docx"
extension txt = "txt"

-- `UTI_BY_FORMAT`
abbrev uti_by_format : ArtifactFormat → String
uti_by_format pdf = "com.adobe.pdf"
uti_by_format docx = "org.openxmlformats.wordprocessingml.document"
uti_by_format txt = "public.plain-text"

unfoldable pub shared_name : (company : String) → ArtifactFormat → String
unfolding safe_file_name
shared_name company format =
    String.◌++◌ "kall-resume-"
      (String.◌++◌ (safe_file_name company) (String.◌++◌ "." (extension format)))

abbrev or_type : String → String → String
or_type type fallback = if is_nonempty type then type else fallback

unfoldable pub share : (company : String) → Option DocumentDetail → Artifact → Handler Unit
unfolding busy_with shared_name
share company document artifact = when_some document (λ d.
    busy_with (String.◌++◌ "download-" (extension artifact.format))
      (do
        (bytes, type) ← await (download_document d.id artifact.format)
        await (
            save_and_share bytes (shared_name company artifact.format)
              (or_type artifact.mime_type type) (uti_by_format artifact.format)))
      "Unable to save that file.")

abbrev notes_of : String → Option String
notes_of notes = if is_nonempty (trim notes) then some (trim notes) else none

unfoldable pub draft_letter :
    (application : ℕ) → Option TailoringProposal → LetterOptions → (notes : String) → Handler Unit
unfolding busy_with trim
draft_letter application proposal options notes = when_some proposal (λ p.
    busy_with "letter"
      (do
        created ← await (create_cover_letter p.id options (notes_of notes))
        letter ← await (fetch_cover_letter created.id)
        set (λ s. record s { cover_letter = some letter })
        await (link_cover_letter application created.id)
        set (say "Cover letter draft is ready for review."))
      "Unable to draft the cover letter.")

unfoldable pub replace_paragraph :
    CoverLetterChange → List CoverLetterChange → List CoverLetterChange
replace_paragraph updated [] = []
replace_paragraph updated (item ∷ rest) =
    (if item.id == updated.id then updated else item) ∷ replace_paragraph updated rest

-- `setCoverLetter((current) => current && …)`
abbrev pub on_letter : (CoverLetter → CoverLetter) → Screen → Screen
on_letter change s = elim s.cover_letter as (λ _. Screen) [
  | none ↦ s
  | some letter ↦ record s { cover_letter = some (change letter) }
]

unfoldable pub decide_paragraph : CoverLetterChange → Decision → Handler Unit
unfolding busy_with replace_paragraph
decide_paragraph change decision =
    busy_with (String.◌++◌ "letter-" (decimal change.id))
      (do
        updated ← await (decide_cover_letter_change change.id decision)
        set (
            on_letter
              (λ letter. record letter { changes = replace_paragraph updated letter.changes })))
      "Unable to save that decision."

unfoldable pub finalize_letter : Option CoverLetter → Handler Unit
unfolding busy_with
finalize_letter letter = when_some letter (λ l.
    busy_with "finalize-letter"
      (do
        finalized ← await (finalize_cover_letter l.proposal.id)
        set (λ s.
            say "Cover letter finalized." (on_letter (λ x. record x { proposal = finalized }) s)))
      "Unable to finalize the cover letter.")

-- `RESUME_TEMPLATES`, by key
abbrev pub resume_templates : List String
resume_templates =
    "standard" ∷ "executive" ∷ "creative" ∷ "commercial" ∷ "service" ∷ "early" ∷ "compact" ∷ []

module _ (cache_image : (bytes : List ℕ) → (name : String) → String) where
  abbrev done : Handler Unit
  done = give tt

  abbrev preview_name : ℕ → String → String
  preview_name proposal key =
      String.◌++◌ "preview-"
        (String.◌++◌ (decimal proposal) (String.◌++◌ "-" (String.◌++◌ key ".png")))

  abbrev unless_cancelled : (run : ℕ) → Handler Unit → Handler Unit
  unless_cancelled run t = read (λ s. if s.preview_run == run then t else done)

  -- One template's thumbnail, whose failure is ignored.
  abbrev pub preview : (run proposal : ℕ) (key : String) → Handler Unit
  preview run proposal key =
      catch
        (do
          bytes ← await (fetch_template_preview proposal key)
          unless_cancelled run (
              set (λ s. record s {
                previews = (key, cache_image bytes (preview_name proposal key)) ∷ s.previews;
              })))
        (λ _. done)

  unfoldable pub preview_each : (run proposal : ℕ) → List String → Handler Unit
  preview_each run proposal [] = done
  preview_each run proposal (key ∷ keys) =
      let rest = preview_each run proposal keys in
      unless_cancelled run (preview run proposal key >> rest)

  -- The cleanup of the last run, and the effect.
  unfoldable pub previews_effect : Option TailoringProposal → Option DocumentDetail → Handler Unit
  unfolding preview_each
  previews_effect proposal document = do
    set (λ s. record s { preview_run = s.preview_run + 1 })
    elim proposal [
      | none ↦ done
      | some p ↦ elim document [
        | some _ ↦ done
        | none ↦
            if str_eq p.status "finalized"
            then read (λ s. preview_each s.preview_run p.id resume_templates)
            else done
      ]
    ]

  abbrev unless_replaced : (run : ℕ) → Handler Unit → Handler Unit
  unless_replaced run t = read (λ s. if s.document_run == run then t else done)

  -- The effect on `document`: its cleanup and its start, and the two fetches that then run side by side.
  unfoldable pub document_effect : Option DocumentDetail → Handler Unit
  document_effect none =
      set (λ s. record s { document_run = s.document_run + 1; final_preview = none; ats = none })
  document_effect (some d) = set (λ s. record s { document_run = s.document_run + 1 })

  unfoldable pub fetch_final_preview : (run document : ℕ) → Handler Unit
  fetch_final_preview run document =
      catch
        (do
          bytes ← await (fetch_document_preview document)
          unless_replaced run (
              set (λ s. record s {
                final_preview = some (
                    cache_image bytes
                      (String.◌++◌ "document-" (String.◌++◌ (decimal document) ".png")));
              })))
        (λ _. done)

  unfoldable pub fetch_report : (run document : ℕ) → Handler Unit
  fetch_report run document =
      catch
        (do
          report ← await (fetch_ats_check document)
          unless_replaced run (set (λ s. record s { ats = some report })))
        (λ _. done)
