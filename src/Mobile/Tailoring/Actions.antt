-- ===== src/Mobile/Tailoring/Actions.antt =====
-- What a person does on the tailoring screen, and the events that it makes: apps/mobile/src/screens/
-- TailoringScreen.tsx.
use kall.Common.{none, not, ℕ, String, Option, List, [], ◌∷◌}
use kall.Mobile.Task.{set, Result, Event, starts, answers}
use kall.Mobile.Tailoring.{
  TailoringChange, TailoringProposal, Decision, CoverLetter, CoverLetterChange, DocumentDetail,
  LetterOptions, Artifact, Request, Response, Drafts, Screen,
}
use kall.Mobile.Tailoring.Handlers.{
  Handler, load, decide, confirm, finalize, review_all, type_draft,
}
use kall.Mobile.Tailoring.Documents.{
  restart, save_to_profile, generate, share, draft_letter, decide_paragraph, finalize_letter,
}

-- What a person can do on the screen, with the state that the button was drawn with.
pub data Action : Type 0 where
  loads restarts : (application : ℕ) → Action
  types : ℕ → String → Action
  confirms : Drafts → TailoringChange → Action
  decides : Drafts → TailoringChange → Decision → Action
  finalizes : Option TailoringProposal → Action
  reviews_all : Option TailoringProposal → Decision → Option String → Action
  saves : Option DocumentDetail → Action
  generates : (application : ℕ) → Option TailoringProposal → (template_key : String) → Action
  shares : (company : String) → Option DocumentDetail → Artifact → Action
  drafts_letter : (application : ℕ) → Option TailoringProposal → LetterOptions → String → Action
  decides_paragraph : CoverLetterChange → Decision → Action
  finalizes_letter : Option CoverLetter → Action
  picks_template picks_emphasis picks_tone picks_length types_notes : String → Action
  leaves_document uses_compact shows_answered : Action

abbrev pub handler : Action → Handler Unit
handler (loads application) = load application
handler (restarts application) = restart application
handler (types id text) = type_draft id text
handler (confirms drafts c) = confirm drafts c
handler (decides drafts c d) = decide drafts c d
handler (finalizes p) = finalize p
handler (reviews_all p d prefix) = review_all p d prefix
handler (saves d) = save_to_profile d
handler (generates application p key) = generate application p key
handler (shares company d artifact) = share company d artifact
handler (drafts_letter application p options notes) = draft_letter application p options notes
handler (decides_paragraph c d) = decide_paragraph c d
handler (finalizes_letter l) = finalize_letter l
handler (picks_template key) = set (λ s. record s { template_key = key })
handler (picks_emphasis value) =
    set (λ s. record s { letter_options = record s.letter_options { emphasis = value } })
handler (picks_tone value) =
    set (λ s. record s { letter_options = record s.letter_options { tone = value } })
handler (picks_length value) =
    set (λ s. record s { letter_options = record s.letter_options { length = value } })
handler (types_notes text) = set (λ s. record s { company_notes = text })
handler leaves_document = set (λ s. record s { document = none; saved_resume = none })
handler uses_compact =
    set (λ s. record s { template_key = "compact"; document = none; saved_resume = none })
handler shows_answered = set (λ s. record s { show_answered = not s.show_answered })

-- The person acts, or a request is answered.
pub data Happening : Type 0 where
  acts : Action → Happening
  replies : ℕ → ((r : Request) → Result (Response r)) → Happening

abbrev pub event : Happening → Event Screen Request Response
event (acts a) = starts (handler a)
event (replies n answer) = answers n answer

abbrev pub events : List Happening → List (Event Screen Request Response)
events [] = []
events (h ∷ hs) = event h ∷ events hs
