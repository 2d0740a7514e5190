-- ===== src/Mobile/Tailoring/Drafts/Interleaved.antt =====
-- Every handler of the tailoring screen keeps a text in each editor, and so does every interleaving.
use kall.Common.{
  ℕ, String, true, false, Option, none, some, List, [], ◌∷◌, arith, str_eq, if◌then◌else◌,
}
use kall.Common.Text.{trim}
use kall.Mobile.Task.{play}
use kall.Mobile.Task.Keeps.{Keeps, Keeps-bind, Keeps-catch, Keeps-finally, StartsKeep, play-Holds}
use kall.Mobile.Tailoring.{
  ApplicationRecord, TailoringChange, TailoringProposal, Decision, accepted, edited, rejected,
  CoverLetter, CoverLetterChange, DocumentDetail, LetterOptions, Artifact, Drafts, no_drafts,
  Screen, initial,
}
use kall.Mobile.Tailoring.Handlers.{
  Handler, load, show_proposal, text_or, when_some, load_parts, send_decision, send_edited, trimmed,
  busy_with, decide, confirm, finalize, review_all, type_draft,
}
use kall.Mobile.Tailoring.Documents.{
  on_letter, restart, save_to_profile, generate, share, draft_letter, decide_paragraph,
  finalize_letter,
}
use kall.Mobile.Tailoring.Drafts.{HasDrafts, replace-All, merge-All, put-All, from-All}
use kall.Mobile.Tailoring.Actions.{
  Action, loads, restarts, types, confirms, decides, finalizes, reviews_all, saves, generates,
  shares, drafts_letter, decides_paragraph, finalizes_letter, picks_template, picks_emphasis,
  picks_tone, picks_length, types_notes, leaves_document, uses_compact, shows_answered, handler,
  Happening, acts, replies, events,
}

ruleset keeps = (Keeps-bind, Keeps-catch, Keeps-finally)

busy-Keeps :
    (key : String) (work : Handler Unit) (fallback : String)
    → Keeps HasDrafts work
    → Keeps HasDrafts (busy_with key work fallback)
unfolding busy_with
busy-Keeps key work fallback h = search keeps

when-Keeps {ℓ} :
    {A : Type ℓ} (o : Option A) (act : A → Handler Unit)
    → ((a : A) → Keeps HasDrafts (act a))
    → Keeps HasDrafts (when_some o act)
unfolding when_some
when-Keeps none act h = tt
when-Keeps (some a) act h = h a

show-HasDrafts :
    (detail : TailoringProposal × List TailoringChange) (s : Screen)
    → HasDrafts (show_proposal detail s)
unfolding show_proposal
show-HasDrafts (proposal, changes) s = from-All changes no_drafts

parts-Keeps : (application : ApplicationRecord) → Keeps HasDrafts (load_parts application)
unfolding load_parts
parts-Keeps application = search (keeps, when-Keeps, show-HasDrafts) depth 12

load-Keeps : (application : ℕ) → Keeps HasDrafts (load application)
unfolding load
load-Keeps application = search (keeps, parts-Keeps)

send-Keeps :
    (id : ℕ) (d : Decision) (text : Option String) → Keeps HasDrafts (send_decision id d text)
unfolding send_decision
send-Keeps id d text = search (keeps, busy-Keeps, replace-All)

edited-Keeps : (id : ℕ) (text : Option String) → Keeps HasDrafts (send_edited id text)
edited-Keeps id none = search keeps
edited-Keeps id (some text) = send-Keeps id edited (some text)

pub decide-Keeps :
    (drafts : Drafts) (c : TailoringChange) (d : Decision) → Keeps HasDrafts (decide drafts c d)
unfolding decide
decide-Keeps drafts c edited = edited-Keeps c.id (trimmed (drafts c.id))
decide-Keeps drafts c accepted = send-Keeps c.id accepted none
decide-Keeps drafts c rejected = send-Keeps c.id rejected none

finalize-Keeps : (p : Option TailoringProposal) → Keeps HasDrafts (finalize p)
unfolding finalize
finalize-Keeps p = search (keeps, when-Keeps, busy-Keeps)

pub review_all-Keeps :
    (p : Option TailoringProposal) (d : Decision) (prefix : Option String)
    → Keeps HasDrafts (review_all p d prefix)
unfolding review_all
review_all-Keeps p d prefix = search (keeps, when-Keeps, busy-Keeps, merge-All)

restart-Keeps : (application : ℕ) → Keeps HasDrafts (restart application)
unfolding restart
restart-Keeps application = search (keeps, busy-Keeps, load-Keeps)

save-Keeps : (d : Option DocumentDetail) → Keeps HasDrafts (save_to_profile d)
unfolding save_to_profile
save-Keeps d = search (keeps, when-Keeps, busy-Keeps)

generate-Keeps :
    (application : ℕ) (p : Option TailoringProposal) (key : String)
    → Keeps HasDrafts (generate application p key)
unfolding generate
generate-Keeps application p key = search (keeps, when-Keeps, busy-Keeps) depth 12

share-Keeps :
    (company : String) (d : Option DocumentDetail) (artifact : Artifact)
    → Keeps HasDrafts (share company d artifact)
unfolding share
share-Keeps company d artifact = search (keeps, when-Keeps, busy-Keeps)

letter-Keeps :
    (application : ℕ) (p : Option TailoringProposal) (options : LetterOptions) (notes : String)
    → Keeps HasDrafts (draft_letter application p options notes)
unfolding draft_letter
letter-Keeps application p options notes = search (keeps, when-Keeps, busy-Keeps) depth 12

on_letter-HasDrafts :
    (f : CoverLetter → CoverLetter) (s : Screen) → HasDrafts s → HasDrafts (on_letter f s)
on_letter-HasDrafts f s h = ground arith

paragraph-Keeps : (c : CoverLetterChange) (d : Decision) → Keeps HasDrafts (decide_paragraph c d)
unfolding decide_paragraph
paragraph-Keeps c d = search (keeps, busy-Keeps, on_letter-HasDrafts)

finalize_letter-Keeps : (l : Option CoverLetter) → Keeps HasDrafts (finalize_letter l)
unfolding finalize_letter
finalize_letter-Keeps l = search (keeps, when-Keeps, busy-Keeps, on_letter-HasDrafts)

confirm-Keeps : (drafts : Drafts) (c : TailoringChange) → Keeps HasDrafts (confirm drafts c)
unfolding confirm
confirm-Keeps drafts c =
    elim (str_eq (trim (text_or (drafts c.id) "")) c.proposed_text)
      as (λ b. Keeps HasDrafts (if b then decide drafts c accepted else decide drafts c edited)) [
        | true ↦ decide-Keeps drafts c accepted
        | false ↦ decide-Keeps drafts c edited
      ]

handler-Keeps : (a : Action) → Keeps HasDrafts (handler a)
unfolding type_draft
handler-Keeps (loads application) = load-Keeps application
handler-Keeps (restarts application) = restart-Keeps application
handler-Keeps (types id text) = ((λ s h. put-All id text s.drafts s.changes h), tt)
handler-Keeps (confirms drafts c) = confirm-Keeps drafts c
handler-Keeps (decides drafts c d) = decide-Keeps drafts c d
handler-Keeps (finalizes p) = finalize-Keeps p
handler-Keeps (reviews_all p d prefix) = review_all-Keeps p d prefix
handler-Keeps (saves d) = save-Keeps d
handler-Keeps (generates application p key) = generate-Keeps application p key
handler-Keeps (shares company d artifact) = share-Keeps company d artifact
handler-Keeps (drafts_letter application p options notes) = letter-Keeps application p options notes
handler-Keeps (decides_paragraph c d) = paragraph-Keeps c d
handler-Keeps (finalizes_letter l) = finalize_letter-Keeps l
handler-Keeps (picks_template text) = ((λ s h. h), tt)
handler-Keeps (picks_emphasis text) = ((λ s h. h), tt)
handler-Keeps (picks_tone text) = ((λ s h. h), tt)
handler-Keeps (picks_length text) = ((λ s h. h), tt)
handler-Keeps (types_notes text) = ((λ s h. h), tt)
handler-Keeps leaves_document = ((λ s h. h), tt)
handler-Keeps uses_compact = ((λ s h. h), tt)
handler-Keeps shows_answered = ((λ s h. h), tt)

events-StartsKeep : (hs : List Happening) → StartsKeep HasDrafts (events hs)
events-StartsKeep [] = tt
events-StartsKeep (acts a ∷ hs) = (handler-Keeps a, events-StartsKeep hs)
events-StartsKeep (replies n answer ∷ hs) = events-StartsKeep hs

-- Whatever a person does on the screen and however the answers to its requests interleave, every
-- suggestion that is shown has a text in its editor.
pub play-HasDrafts :
    (hs : List Happening)
    → HasDrafts (play (events hs) (record { screen = initial; waiting = [] })).screen
play-HasDrafts hs =
    (play-Holds HasDrafts (events hs) (record { screen = initial; waiting = [] })
      (events-StartsKeep hs) (tt, tt)).0
