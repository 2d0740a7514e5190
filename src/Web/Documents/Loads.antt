-- ===== src/Web/Documents/Loads.antt =====
-- Overlapping calls of `load`: which of them may change the panel.
use kall.Common.{
  ℕ, zero, suc, ◌<◌, String, ◌≡◌, refl, ◌≢◌, Bool, true, false, Option, none, some, List, ◌∷◌,
  arith, if◌then◌else◌,
}
use kall.Web.Documents.{
  TailoringChange, CoverLetterChange, PreparedPayload, GeneratedDocument, truthy_id, Panel, Stage,
  application_fetch, application_body, proposal_fetch, proposal_body, letter_fetch, letter_body,
  document_fetch, document_body, finished, Answer, responded, application, proposal, letter,
  document_read, threw, after_letter, after_proposal, is_stale, resume, deliver, is_some,
}

-- A call of `load` that a later one has overtaken changes nothing when its await is answered, unless it
-- waits for the body of the document.
pub resume_stale :
    (seq : ℕ) (stage : Stage) (answer : Answer) (s : Panel)
    → seq ≢ s.load_seq
    → stage ≢ document_body
    → (resume seq stage answer s).1 ≡ s
unfolding resume
resume_stale seq application_fetch answer s h d = ground arith
resume_stale seq application_body answer s h d = ground arith
resume_stale seq (proposal_fetch p) answer s h d = ground arith
resume_stale seq (proposal_body p) answer s h d = ground arith
resume_stale seq (letter_fetch p) answer s h d = ground arith
resume_stale seq (letter_body p) answer s h d = ground arith
resume_stale seq document_fetch answer s h d = ground arith
resume_stale seq document_body answer s h d = absurd (d refl)
resume_stale seq finished answer s h d = ground arith

-- How many awaits a call of `load` may still have before it.
abbrev pub rank : Stage → ℕ
rank application_fetch = 8
rank application_body = 7
rank (proposal_fetch p) = 6
rank (proposal_body p) = 5
rank (letter_fetch p) = 4
rank (letter_body p) = 3
rank document_fetch = 2
rank document_body = 1
rank finished = 0

-- Every answer brings a call of `load` nearer to its end, whatever the answer is.
pub rank-resume :
    (seq : ℕ) (stage : Stage) (answer : Answer) (s : Panel)
    → stage ≢ finished
    → rank (resume seq stage answer s).0 < rank stage
unfolding resume
rank-resume seq application_fetch answer s h = ground arith
rank-resume seq application_body answer s h = ground arith
rank-resume seq (proposal_fetch p) answer s h = ground arith
rank-resume seq (proposal_body p) answer s h = ground arith
rank-resume seq (letter_fetch p) answer s h = ground arith
rank-resume seq (letter_body p) answer s h = ground arith
rank-resume seq document_fetch answer s h = ground arith
rank-resume seq document_body answer s h = ground arith
rank-resume seq finished answer s h = absurd (h refl)

abbrev Proposal : Type 0
Proposal = List TailoringChange × String

abbrev Letter : Type 0
Letter = List CoverLetterChange × String

abbrev answer_proposal : Option Proposal → Answer
answer_proposal none = threw
answer_proposal (some (changes, status)) = proposal changes status

abbrev answer_letter : Option Letter → Answer
answer_letter none = threw
answer_letter (some (changes, status)) = letter changes status

abbrev answer_document : Option GeneratedDocument → Answer
answer_document none = threw
answer_document (some d) = document_read d

-- What the panel shows of a part: the server's answer if it was asked for, or what was there before.
abbrev shown_changes : Bool → Option Proposal → Panel → Panel
shown_changes false answer s = s
shown_changes true none s = record s { tailoring_changes_loaded = true }
shown_changes true (some (changes, status)) s = record s {
  tailoring_changes = changes;
  tailoring_status = status;
  tailoring_changes_loaded = true;
}

abbrev shown_letter : Bool → Option Letter → Panel → Panel
shown_letter false answer s = s
shown_letter true none s = record s { cover_letter_changes_loaded = true }
shown_letter true (some (changes, status)) s = record s {
  cover_letter_changes = changes;
  cover_letter_status = status;
  cover_letter_changes_loaded = true;
}

abbrev shown_document : Bool → Option GeneratedDocument → Panel → Panel
shown_document false answer s = s
shown_document true none s = s
shown_document true (some d) s = record s { document = some d }

-- What the server has for an application: its payload, and of each part an answer or a refusal.
module _ (pr : Option Proposal) (lt : Option Letter) (dc : Option GeneratedDocument) where
  abbrev pub answer_of : PreparedPayload → Stage → Answer
  answer_of p application_fetch = responded true
  answer_of p application_body = application p
  answer_of p (proposal_fetch _) = responded (is_some pr)
  answer_of p (proposal_body _) = answer_proposal pr
  answer_of p (letter_fetch _) = responded (is_some lt)
  answer_of p (letter_body _) = answer_letter lt
  answer_of p document_fetch = responded (is_some dc)
  answer_of p document_body = answer_document dc
  answer_of p finished = threw

  -- A call of `load` that nothing interrupts, for so many awaits.
  unfoldable pub complete : ℕ → ℕ → PreparedPayload → Stage → Panel → Stage × Panel
  complete zero seq p stage s = (stage, s)
  complete (suc n) seq p stage s =
      let (next, s') = resume seq stage (answer_of p stage) s in complete n seq p next s'

  abbrev pub loaded : PreparedPayload → Panel → Panel
  loaded p s = shown_document (truthy_id p.generated_document_id) dc (
      shown_letter (truthy_id p.cover_letter_proposal_id) lt
        (shown_changes (truthy_id p.tailoring_proposal_id) pr (record s { payload = some p })))

  complete-finished :
      (n seq : ℕ) (p : PreparedPayload) (s : Panel) → complete n seq p finished s ≡ (finished, s)
  unfolding complete resume
  complete-finished zero seq p s = refl
  complete-finished (suc n) seq p s = complete-finished n seq p s

is_stale_self : (seq : ℕ) (s : Panel) → s.load_seq ≡ seq → is_stale seq s ≡ false
unfolding is_stale
is_stale_self seq s h = ground arith

module _ (seq : ℕ) (p : PreparedPayload) (pr : Option Proposal) (lt : Option Letter) where
  complete-document :
      (n : ℕ) (dc : Option GeneratedDocument) (s : Panel) (wanted : Bool)
      → s.load_seq ≡ seq
      → complete pr lt dc (suc (suc n)) seq p (if wanted then document_fetch else finished) s
        ≡ (finished, shown_document wanted dc s)
  unfolding complete resume
  complete-document n dc s false h = complete-finished pr lt dc n seq p s
  complete-document n none s true h = complete-finished pr lt none n seq p s
  complete-document n (some d) s true h =
      rw (is_stale_self seq s h)
        (complete-finished pr lt (some d) n seq p (record s { document = some d }))

module _ (seq : ℕ) (p : PreparedPayload) (dc : Option GeneratedDocument) where
  complete-letter :
      (n : ℕ) (pr : Option Proposal) (lt : Option Letter) (s : Panel) (wanted : Bool)
      → s.load_seq ≡ seq
      → complete pr lt dc
          (suc (suc (suc (suc n))))
          seq
          p
          (if wanted then letter_fetch p else after_letter p)
          s
        ≡ (
          finished,
          shown_document (truthy_id p.generated_document_id) dc (shown_letter wanted lt s),
        )
  unfolding complete resume
  complete-letter n pr lt s false h =
      complete-document seq p pr lt (suc (suc n)) dc s (truthy_id p.generated_document_id) h
  complete-letter n pr none s true h = rw (is_stale_self seq s h) (
      complete-document seq p pr none (suc n) dc (record s { cover_letter_changes_loaded = true })
        (truthy_id p.generated_document_id) h)
  complete-letter n pr (some (changes, status)) s true h = rw (is_stale_self seq s h) (
      complete-document seq p pr (some (changes, status)) n dc
        (shown_letter true (some (changes, status)) s) (truthy_id p.generated_document_id) h)

module _ (seq : ℕ) (p : PreparedPayload) (lt : Option Letter) (dc : Option GeneratedDocument) where
  complete-proposal :
      (n : ℕ) (pr : Option Proposal) (s : Panel) (wanted : Bool)
      → s.load_seq ≡ seq
      → complete pr lt dc
          (suc (suc (suc (suc (suc (suc n))))))
          seq
          p
          (if wanted then proposal_fetch p else after_proposal p)
          s
        ≡ (
          finished,
          shown_document
              (truthy_id p.generated_document_id)
              dc
              (shown_letter (truthy_id p.cover_letter_proposal_id) lt (shown_changes wanted pr s)),
        )
  unfolding complete resume
  complete-proposal n pr s false h =
      complete-letter seq p dc (suc (suc n)) pr lt s (truthy_id p.cover_letter_proposal_id) h
  complete-proposal n none s true h = rw (is_stale_self seq s h) (
      complete-letter seq p dc (suc n) none lt (record s { tailoring_changes_loaded = true })
        (truthy_id p.cover_letter_proposal_id) h)
  complete-proposal n (some (changes, status)) s true h = rw (is_stale_self seq s h) (
      complete-letter seq p dc n (some (changes, status)) lt
        (shown_changes true (some (changes, status)) s) (truthy_id p.cover_letter_proposal_id) h)

-- The newest call of `load`, uninterrupted, ends within eight awaits, and the panel then shows what the
-- server has of each part that the application names.
pub complete-loaded :
    (pr : Option Proposal) (lt : Option Letter) (dc : Option GeneratedDocument)
    (p : PreparedPayload) (s : Panel)
    → complete pr lt dc 8 s.load_seq p application_fetch s ≡ (finished, loaded pr lt dc p s)
unfolding complete resume
complete-loaded pr lt dc p s =
    rw (is_stale_self s.load_seq s refl, is_stale_self s.load_seq s refl)
      (complete-proposal s.load_seq p lt dc 0 pr (record s { payload = some p })
        (truthy_id p.tailoring_proposal_id) refl)

-- A call of `load` that has asked for the document's body puts it on the panel when the body arrives,
-- even if a later call has overtaken it and whatever the panel showed of the document until then.
pub overtaken_document :
    (d : GeneratedDocument) (s : Panel) (rest : List (ℕ × Stage)) (seq : ℕ)
    → (deliver seq (document_read d) ((seq, document_body) ∷ rest) s).panel.document ≡ some d
unfolding deliver
overtaken_document d s rest seq = ground arith
