-- ===== src/Record/Section/Skills.antt =====
-- The skills that are about to be added.
use kall.Common.{
  ℕ, ◌+◌, ◌≤◌, String, ◌≡◌, refl, ap, ◌∙◌, inl, inr, Bool, true, false, not, none, some, List, [],
  ◌∷◌, ◌++◌, map, arith, str_eq, eq_refl, ltb, if◌then◌else◌, Bool-cases, length, keep, contains,
}
use kall.Record.Section.{
  SkillCheck, Tab, apply_at, apply_checks, apply_suggestion, saved_name, posted, added, failed,
  save_skills, toggle,
}

contains_last : (name : String) (xs : List String) → contains name (xs ++ name ∷ []) ≡ true
contains_last name [] = ground (arith, eq_refl name)
contains_last name (x ∷ xs) = ground (arith, contains_last name xs)

keep_without_last :
    (name : String) (xs : List String)
    → contains name xs ≡ false
    → keep (λ item. not (str_eq item name)) (xs ++ name ∷ []) ≡ xs
keep_without_last name [] h = rw (eq_refl name) refl
keep_without_last name (x ∷ xs) h = ground (arith, keep_without_last name xs)

-- A skill that is chosen and then chosen again is no longer chosen, and the others are as they were.
pub toggle_twice :
    (name : String) (current : List String)
    → contains name current ≡ false
    → toggle name (toggle name current) ≡ current
unfolding toggle
toggle_twice name current h = rw (h, contains_last name current) (keep_without_last name current h)

contains-keep :
    (name : String) (xs : List String)
    → contains name (keep (λ item. not (str_eq item name)) xs) ≡ false
contains-keep name [] = refl
contains-keep name (x ∷ xs) = ground (arith, contains-keep name xs)

-- Choosing turns the choice of the skill around.
pub contains-toggle :
    (name : String) (current : List String)
    → contains name (toggle name current) ≡ not (contains name current)
unfolding toggle
contains-toggle name current = elim (Bool-cases (contains name current)) [
  | inl there ↦ rw there (contains-keep name current)
  | inr absent ↦ rw absent (contains_last name current)
]

length-keep : (p : String → Bool) (xs : List String) → length (keep p xs) ≤ length xs
length-keep p [] = omega arith
length-keep p (x ∷ xs) = ground (arith, length-keep p xs)

-- Every post is counted once: as added or as failed.
pub added-failed :
    (succeeded : String → Bool) (shown : ℕ → String) (s : Tab)
    → added shown succeeded s + failed shown succeeded s ≡ length (posted s.checks)
unfolding added failed
added-failed succeeded shown s = omega (arith, length-keep succeeded (posted s.checks))

map-apply_at :
    (before after : List SkillCheck) (check : SkillCheck) (better : String)
    → check.suggestion ≡ some better
    → str_eq better "" ≡ false
    → map saved_name (apply_at (length before) (before ++ check ∷ after))
      ≡ map saved_name before ++ better ∷ map saved_name after
map-apply_at [] after check better h k = rw (h, k) refl
map-apply_at (c ∷ before) after check better h k =
    ap (λ cs. saved_name c ∷ cs) (map-apply_at before after check better h k)

-- Once a suggestion is taken, its spelling is posted for that skill, and for the others what was before.
pub posted-apply_suggestion :
    (before after : List SkillCheck) (check : SkillCheck) (better : String) (s : Tab)
    → s.checks ≡ some (before ++ check ∷ after)
    → check.suggestion ≡ some better
    → str_eq better "" ≡ false
    → posted (apply_suggestion (length before) s).checks
      ≡ map saved_name before ++ better ∷ map saved_name after
unfolding apply_suggestion
posted-apply_suggestion before after check better s e h k =
    ap (λ cs. posted (apply_checks (length before) cs)) e
    ∙ map-apply_at before after check better h k

added_bound :
    (shown : ℕ → String) (succeeded : String → Bool) (s : Tab)
    → added shown succeeded s ≤ length (posted s.checks)
unfolding added
added_bound shown succeeded s = length-keep succeeded (posted s.checks)

-- After the posts, the skills and their checks are cleared if one of them was added, also where others
-- failed, and are all kept if none was.
pub save_skills-clears :
    (shown : ℕ → String) (succeeded : String → Bool) (s : Tab)
    → ((save_skills shown succeeded s).checks
        ≡ (if ltb 0 (added shown succeeded s) then none else s.checks))
      × ((save_skills shown succeeded s).skill_names
          ≡ (if ltb 0 (added shown succeeded s) then [] else s.skill_names))
unfolding save_skills
save_skills-clears shown succeeded s =
    (ground (arith, added_bound shown succeeded s), ground (arith, added_bound shown succeeded s))
