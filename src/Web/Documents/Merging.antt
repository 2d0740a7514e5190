-- ===== src/Web/Documents/Merging.antt =====
-- What an answered action does to the suggestions on the panel, and when the panel is ready.
use kall.Common.{
  ℕ, String, ◌≡◌, refl, ◌↔◌, ◌⊎◌, inl, inr, true, false, Option, none, some, List, [], ◌∷◌, arith,
  str_eq, eq_iff, ◌==◌, if◌then◌else◌, Option-cases, any, find, All,
}
use kall.Common.Http.{Body}
use kall.Web.Documents.{
  TailoringChange, GeneratedDocument, Panel, Stage, document_body, document_read, World, deliver,
  customizes, has_letter, has_proposal, ready, is_some,
}
use kall.Web.Documents.Actions.{
  refused, answered, lost, or_self, merge_changes, replace_change, can_finalize_tailoring, begin,
  review_all, decide_tailoring, finalize_tailoring, decide_cover_letter, finalize_cover_letter,
  save_to_profile, restart_tailoring, same_id,
}

-- The suggestion on the panel with this identifier.
abbrev pub with_id : ℕ → List TailoringChange → Option TailoringChange
with_id id changes = find (same_id id) changes

abbrev or_updated : Option TailoringChange → Option TailoringChange → Option TailoringChange
or_updated none updated = none
or_updated (some item) updated = some (or_self item updated)

with_id-id :
    (id : ℕ) (xs : List TailoringChange) (c : TailoringChange) → with_id id xs ≡ some c → c.id ≡ id
with_id-id id [] c h = cc
with_id-id id (x ∷ xs) c h = ground (arith, with_id-id id xs c)

or_self-id :
    (item : TailoringChange) (updated : List TailoringChange)
    → (or_self item (with_id item.id updated)).id ≡ item.id
or_self-id item updated = elim (Option-cases (with_id item.id updated)) [
  | inl e ↦ rw e
  | inr (c, e) ↦ rw e (with_id-id item.id updated c e)
]

with_id-merge_changes :
    (id : ℕ) (updated xs : List TailoringChange)
    → with_id id (merge_changes updated xs) ≡ or_updated (with_id id xs) (with_id id updated)
unfolding merge_changes
with_id-merge_changes id updated [] = refl
with_id-merge_changes id updated (x ∷ xs) =
    ground (arith, with_id-merge_changes id updated xs, or_self-id x updated)

-- After a bulk review each suggestion on the panel is the server's version of it, if the answer has one,
-- and otherwise as it was; none comes or goes.
pub with_id-review_all :
    (id : ℕ) (changes : List TailoringChange) (s : Panel)
    → with_id id (review_all (answered changes) s).tailoring_changes
      ≡ elim (with_id id s.tailoring_changes) [
        | none ↦ none
        | some item ↦ some (or_self item (with_id id changes))
      ]
unfolding review_all
with_id-review_all id changes s =
    ground (arith, with_id-merge_changes id changes s.tailoring_changes)

with_id-replace_change :
    (id : ℕ) (change : TailoringChange) (xs : List TailoringChange)
    → with_id id (replace_change change xs)
      ≡ (if change.id == id then or_updated (with_id id xs) (some change) else with_id id xs)
unfolding replace_change
with_id-replace_change id change [] = ground arith
with_id-replace_change id change (x ∷ xs) = ground (arith, with_id-replace_change id change xs)

-- A decision replaces the suggestion that it is about, if it is on the panel, and no other.
pub with_id-decide_tailoring :
    (id : ℕ) (change : TailoringChange) (s : Panel)
    → with_id id (decide_tailoring (answered change) s).tailoring_changes ≡ (
        if change.id == id
        then elim (with_id id s.tailoring_changes) [ none ↦ none | some item ↦ some change ]
        else with_id id s.tailoring_changes)
unfolding decide_tailoring
with_id-decide_tailoring id change s =
    ground (arith, with_id-replace_change id change s.tailoring_changes)

-- The answer has a decided version of every one of these.
abbrev pub AnswersAll : List TailoringChange → List TailoringChange → Type 0
AnswersAll updated xs =
    All
      (λ x.
        (c : TailoringChange) × (with_id x.id updated ≡ some c)
        × (str_eq c.status "pending" ≡ false))
      xs

none_pending :
    (updated xs : List TailoringChange)
    → AnswersAll updated xs
    → any (λ c. str_eq c.status "pending") (merge_changes updated xs) ≡ false
unfolding merge_changes
none_pending updated [] h = refl
none_pending updated (x ∷ xs) ((c, e, d), hs) = rw (e, d) (none_pending updated xs hs)

-- After a bulk review whose answer has a decided version of every suggestion on a loaded panel with a
-- proposal, the resume can be finalized.
pub review_all-can_finalize :
    (changes : List TailoringChange) (s : Panel)
    → has_proposal s ≡ true
    → s.tailoring_changes_loaded ≡ true
    → AnswersAll changes s.tailoring_changes
    → can_finalize_tailoring (review_all (answered changes) s) ≡ true
unfolding review_all can_finalize_tailoring
review_all-can_finalize changes s p l h = ground (arith, none_pending changes s.tailoring_changes h)

-- A request that is refused or lost leaves the panel as it was before the click.
pub refusal_keeps_panel :
    (s : Panel) (body : Body) (id : ℕ) (decision : String)
    → s.busy ≡ false
    → (review_all (refused body) (begin s) ≡ s)
      × (decide_tailoring (refused body) (begin s) ≡ s)
      × (finalize_tailoring (refused body) (begin s) ≡ s)
      × (decide_cover_letter id decision (refused body) (begin s) ≡ s)
      × (finalize_cover_letter (refused body) (begin s) ≡ s)
      × (save_to_profile (refused body) (begin s) ≡ s)
      × (review_all lost (begin s) ≡ s)
      × (decide_tailoring lost (begin s) ≡ s)
unfolding review_all decide_tailoring finalize_tailoring decide_cover_letter finalize_cover_letter
    save_to_profile
refusal_keeps_panel s body id decision h = ground arith

-- The panel reports that it is ready exactly if no document was asked for, or the resume's text is
-- final under a proposal, the cover letter is final where one was asked for, and a document is there.
pub ready_iff :
    (s : Panel)
    → (ready s ≡ true) ↔ (
        ((customizes s ≡ false) × (has_letter s ≡ false))
        ⊎ ((has_proposal s ≡ true)
            × (s.tailoring_status ≡ "finalized")
            × ((has_letter s ≡ false) ⊎ (s.cover_letter_status ≡ "finalized"))
            × (is_some s.document ≡ true)))
unfolding ready
ready_iff s =
    ground (arith, eq_iff s.tailoring_status "finalized", eq_iff s.cover_letter_status "finalized")

-- Starting over clears the document at once; but a call of `load` that waits for the old document's body
-- puts it back when that arrives, although the new call has overtaken it.
pub overtaken_after_restart :
    (w : World) (d : GeneratedDocument) (rest : List (ℕ × Stage))
    → w.running ≡ (w.panel.load_seq, document_body) ∷ rest
    → ((restart_tailoring (answered tt) w).panel.document ≡ none)
      × ((deliver w.panel.load_seq
            (document_read d)
            (restart_tailoring (answered tt) w).running
            (restart_tailoring (answered tt) w).panel).panel.document
          ≡ some d)
unfolding restart_tailoring deliver
overtaken_after_restart w d rest h = (refl, ground arith)
