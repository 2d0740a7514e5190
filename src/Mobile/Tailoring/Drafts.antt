-- ===== src/Mobile/Tailoring/Drafts.antt =====
-- Every suggestion on the tailoring screen has a text in its editor: apps/mobile/src/screens/
-- TailoringScreen.tsx. That the handlers keep it so is in Drafts/Interleaved.
pub mod Interleaved
use kall.Common.{
  ℕ, String, ◌≡◌, inl, inr, Bool, Bool-cases, true, false, Option, none, some, Option-cases, List,
  [], ◌∷◌, arith, ◌==◌, ==_iff, find, All,
}
use mathlib.Core.Path.{subst, sym}
use kall.Mobile.Tailoring.{TailoringChange, Drafts, Screen}
use kall.Mobile.Tailoring.Handlers.{drafts_from, put_draft, text_or, replace_change, merge_changes}

abbrev is_some : Option String → Bool
is_some none = false
is_some (some t) = true

abbrev pub HasDraft : Drafts → TailoringChange → Type 0
HasDraft drafts c = is_some (drafts c.id) ≡ true

-- Every suggestion on the screen has a text in its editor.
abbrev pub HasDrafts : Screen → Type 0
HasDrafts s = All (HasDraft s.drafts) s.changes

put-is_some :
    (id other : ℕ) (text : String) (drafts : Drafts)
    → is_some (drafts other) ≡ true
    → is_some (put_draft id text drafts other) ≡ true
put-is_some id other text drafts h = ground (arith, h)

from-is_some :
    (id : ℕ) (cs : List TailoringChange) (drafts : Drafts)
    → is_some (drafts id) ≡ true
    → is_some (drafts_from cs drafts id) ≡ true
unfolding drafts_from
from-is_some id [] drafts h = h
from-is_some id (c ∷ cs) drafts h =
    let text = text_or c.edited_text c.proposed_text in
    from-is_some id cs (put_draft c.id text drafts) (put-is_some c.id id text drafts h)

put_self : (id : ℕ) (text : String) (drafts : Drafts) → is_some (put_draft id text drafts id) ≡ true
put_self id text drafts = ground arith

pub from-All :
    (cs : List TailoringChange) (drafts : Drafts) → All (HasDraft (drafts_from cs drafts)) cs
unfolding drafts_from
from-All [] drafts = tt
from-All (c ∷ cs) drafts =
    let text = text_or c.edited_text c.proposed_text in
    (
      from-is_some c.id cs (put_draft c.id text drafts) (put_self c.id text drafts),
      from-All cs (put_draft c.id text drafts),
    )

module _ (drafts : Drafts) where
  pub replace-All :
      (updated : TailoringChange) (cs : List TailoringChange)
      → All (HasDraft drafts) cs
      → All (HasDraft drafts) (replace_change updated cs)
  unfolding replace_change
  replace-All updated [] h = tt
  replace-All updated (c ∷ cs) (h, hs) = elim (Bool-cases (c.id == updated.id)) [
    | inl same ↦
        let equal = (==_iff c.id updated.id).0 same in
        rw same (subst (λ i. is_some (drafts i) ≡ true) equal h, replace-All updated cs hs)
    | inr other ↦ rw other (h, replace-All updated cs hs)
  ]

  find-id :
      (id : ℕ) (us : List TailoringChange) (u : TailoringChange)
      → find (λ u. u.id == id) us ≡ some u
      → u.id ≡ id
  find-id id [] u h = cc
  find-id id (x ∷ xs) u h = ground (arith, find-id id xs u)

  pub merge-All :
      (us cs : List TailoringChange)
      → All (HasDraft drafts) cs
      → All (HasDraft drafts) (merge_changes us cs)
  unfolding merge_changes
  merge-All us [] h = tt
  merge-All us (c ∷ cs) (h, hs) = elim (Option-cases (find (λ u. u.id == c.id) us)) [
    | inl e ↦ rw e (h, merge-All us cs hs)
    | inr (u, e) ↦
        rw e
          (subst (λ i. is_some (drafts i) ≡ true) (sym (find-id c.id us u e)) h, merge-All us cs hs)
  ]

pub put-All :
    (id : ℕ) (text : String) (drafts : Drafts) (cs : List TailoringChange)
    → All (HasDraft drafts) cs
    → All (HasDraft (put_draft id text drafts)) cs
put-All id text drafts [] h = tt
put-All id text drafts (c ∷ cs) (h, hs) =
    (put-is_some id c.id text drafts h, put-All id text drafts cs hs)
