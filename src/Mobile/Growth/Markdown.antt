-- ===== src/Mobile/Growth/Markdown.antt =====
-- A plan as the text that is shared: `planAsMarkdown` of apps/mobile/src/screens/GrowthScreen.tsx.
use kall.Common.{ℕ, String, Option, none, some, List, [], ◌∷◌, ◌++◌, map, if◌then◌else◌, keep}
use kall.Common.Text.{join, is_nonempty}
use kall.Common.Decimal.{decimal}
use kall.Mobile.Opportunities.{truthy}
use kall.Mobile.Growth.{Goal, Milestone, Resource, Assessment, Plan}

-- A template of texts.
abbrev pub text : List String → String
text parts = join "" parts

abbrev dash : String → String
dash item = text ("- " ∷ item ∷ [])

-- A heading over its lines, if there are any.
unfoldable pub section : String → List String → List String
section heading [] = []
section heading (x ∷ xs) = heading ∷ ((x ∷ xs) ++ "" ∷ [])

abbrev industry : Option String → String
industry none = ""
industry (some t) = if is_nonempty t then text (" · " ∷ t ∷ []) else ""

abbrev hours : Option ℕ → String
hours o = elim (truthy o) [ none ↦ "" | some n ↦ text (", ~" ∷ decimal n ∷ " hours" ∷ []) ]

unfoldable pub milestone_lines : List Milestone → List String
unfolding join decimal
milestone_lines [] = []
milestone_lines (m ∷ ms) =
    text (
      decimal m.sequence ∷ ". **" ∷ m.title ∷ "** (" ∷ m.phase ∷ hours m.estimated_hours ∷ ")" ∷ [])
    ∷ (text ("   " ∷ m.description ∷ []) ∷ milestone_lines ms)

unfoldable pub resource_line : Resource → String
unfolding join
resource_line r = text ("- [" ∷ r.title ∷ "](" ∷ r.url ∷ ")" ∷ [])

abbrev assessment_lines : List Assessment → List String
assessment_lines [] = []
assessment_lines (x ∷ xs) =
    "## Latest skills assessment"
    ∷ text (decimal x.readiness_score ∷ "% readiness" ∷ [])
    ∷ x.narrative
    ∷ ""
    ∷ []

abbrev pub kept_lines : Plan → List String
kept_lines plan = map resource_line (keep (λ (r : Resource). r.saved) plan.resources)

abbrev pub before_kept : Goal → Plan → List String
before_kept goal plan =
    (text ("# " ∷ goal.title ∷ [])
      ∷ text ("Target role: " ∷ goal.target_role ∷ industry goal.target_industry ∷ [])
      ∷ ""
      ∷ plan.summary
      ∷ ""
      ∷ [])
    ++ (section "## Current strengths" (map dash plan.current_strengths)
        ++ (section "## Priority gaps" (map dash plan.skill_gaps)
            ++ (section "## Recommended roles" (map dash plan.recommended_roles)
                ++ section "## Milestones" (milestone_lines plan.milestones))))

unfoldable pub plan_lines : Goal → Plan → List String
unfolding section milestone_lines resource_line join decimal
plan_lines goal plan =
    before_kept goal plan
    ++ (section "## Saved resources" (kept_lines plan)
        ++ (assessment_lines plan.skill_assessments ++ "_Exported from Kall._" ∷ []))

unfoldable pub plan_as_markdown : Goal → Plan → String
unfolding plan_lines join
plan_as_markdown goal plan = join "\n" (plan_lines goal plan)
