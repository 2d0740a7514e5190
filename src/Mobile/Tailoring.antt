-- ===== src/Mobile/Tailoring.antt =====
-- The screen on which a resume is tailored to a posting: its data, its requests and its state, from
-- apps/mobile/src/screens/TailoringScreen.tsx and apps/mobile/src/api/tailoring.ts. Its handlers are in
-- Tailoring/Handlers, what it shows in Tailoring/Views.
pub mod Handlers
pub mod Documents
pub mod Views
pub mod Actions
pub mod Drafts
pub mod Laws
pub mod Restart
pub mod Previews
pub mod Tests
use kall.Common.{ℕ, String, Bool, false, true, Option, none, List, []}

pub record PreparedPayload : Type 0 where
  pub tailoring_proposal_id : Option ℕ
  pub cover_letter_proposal_id : Option ℕ
  pub generated_document_id : Option ℕ

pub record ApplicationRecord : Type 0 where
  pub id : ℕ
  pub status : String
  pub base_resume_id : Option ℕ
  pub prepared_payload : PreparedPayload

pub record Evidence : Type 0 where
  pub text : Option String
  pub employer : Option String
  pub title : Option String
  pub requirement : Option String

pub record TailoringChange : Type 0 where
  pub id : ℕ
  pub section : String
  pub original_text : String
  pub proposed_text : String
  pub edited_text : Option String
  pub reason : String
  pub evidence : List Evidence
  pub immutable_tokens : List String
  pub status : String

pub record TailoringProposal : Type 0 where
  pub id : ℕ
  pub job_id : ℕ
  pub resume_id : ℕ
  pub status : String
  pub unsupported_requirements : List String
  pub finalized_at : Option String

pub data ArtifactFormat : Type 0 where
  pdf docx txt : ArtifactFormat

pub record Artifact : Type 0 where
  pub id : Option ℕ
  pub format : ArtifactFormat
  pub mime_type : String
  pub byte_size : Option ℕ

-- A generated document by what the handlers read of it.
pub record DocumentDetail : Type 0 where
  pub id : ℕ
  pub template_key : String
  pub artifacts : List Artifact

pub record CoverLetterProposal : Type 0 where
  pub id : ℕ
  pub status : String
  pub emphasis : String
  pub tone : String
  pub length : String

pub record CoverLetterChange : Type 0 where
  pub id : ℕ
  pub position : ℕ
  pub proposed_text : String
  pub edited_text : Option String
  pub status : String

pub record CoverLetter : Type 0 where
  pub proposal : CoverLetterProposal
  pub changes : List CoverLetterChange

pub record AtsReport : Type 0 where
  pub score : ℕ
  pub passed : ℕ
  pub total : ℕ

pub record LetterOptions : Type 0 where
  pub emphasis : String
  pub tone : String
  pub length : String

pub data Decision : Type 0 where
  accepted edited rejected : Decision

-- The calls of the API that this screen makes. A download gives the bytes and their type.
pub data Request : Type 0 where
  fetch_application fetch_proposal fetch_document fetch_cover_letter : ℕ → Request
  decide_change : (change : ℕ) → Decision → (edited_text : Option String) → Request
  review_all_changes : (proposal : ℕ) → Decision → (section_prefix : Option String) → Request
  fetch_template_preview : (proposal : ℕ) (template_key : String) → Request
  fetch_document_preview fetch_ats_check save_document_to_profile finalize_proposal : ℕ → Request
  generate_document : (proposal : ℕ) (template_key : String) → Request
  download_document : (document : ℕ) → ArtifactFormat → Request
  create_cover_letter : (proposal : ℕ) → LetterOptions → (notes : Option String) → Request
  decide_cover_letter_change : (change : ℕ) → Decision → Request
  finalize_cover_letter : ℕ → Request
  link_document link_cover_letter : (application id : ℕ) → Request
  restart_tailoring : (application : ℕ) → Request
  save_and_share : (bytes : List ℕ) (name mime_type uti : String) → Request

abbrev pub Response : Request → Type 0
Response (fetch_application id) = ApplicationRecord
Response (fetch_proposal id) = TailoringProposal × List TailoringChange
Response (fetch_document id) = DocumentDetail
Response (fetch_cover_letter id) = CoverLetter
Response (decide_change id status edited_text) = TailoringChange
Response (review_all_changes id status prefix) = ℕ × List TailoringChange
Response (fetch_template_preview id key) = List ℕ
Response (fetch_document_preview id) = List ℕ
Response (fetch_ats_check id) = AtsReport
Response (save_document_to_profile id) = String
Response (finalize_proposal id) = TailoringProposal
Response (generate_document id key) = ℕ
Response (download_document id format) = List ℕ × String
Response (create_cover_letter id options notes) = CoverLetterProposal
Response (decide_cover_letter_change id decision) = CoverLetterChange
Response (finalize_cover_letter id) = CoverLetterProposal
Response (link_document application id) = Unit
Response (link_cover_letter application id) = Unit
Response (restart_tailoring id) = Unit
Response (save_and_share bytes name mime_type uti) = Unit

-- The texts that the person has in the editors, by the suggestion's identifier.
abbrev pub Drafts : Type 0
Drafts = ℕ → Option String

abbrev pub no_drafts : Drafts
no_drafts id = none

-- `preview_run` and `document_run` number the runs of the two effects: a cleanup sets `cancelled` of the
-- run that it belongs to, here by counting on.
pub record Screen : Type 0 where
  pub application : Option ApplicationRecord
  pub proposal : Option TailoringProposal
  pub changes : List TailoringChange
  pub drafts : Drafts
  pub document : Option DocumentDetail
  pub template_key : String
  pub cover_letter : Option CoverLetter
  pub letter_options : LetterOptions
  pub company_notes : String
  pub loading : Bool
  pub busy : Option String
  pub message : String
  pub previews : List (String × String)
  pub final_preview : Option String
  pub saved_resume : Option String
  pub ats : Option AtsReport
  pub show_answered : Bool
  pub preview_run : ℕ
  pub document_run : ℕ

abbrev pub initial : Screen
initial = record {
  application = none;
  proposal = none;
  changes = [];
  drafts = no_drafts;
  document = none;
  template_key = "standard";
  cover_letter = none;
  letter_options = record { emphasis = "balanced"; tone = "formal"; length = "standard" };
  company_notes = "";
  loading = true;
  busy = none;
  message = "";
  previews = [];
  final_preview = none;
  saved_resume = none;
  ats = none;
  show_answered = false;
  preview_run = 0;
  document_run = 0;
}
