-- ===== src/Mobile/Growth/Laws.antt =====
-- What submitting a new goal does, and what the shared text of a plan holds:
-- apps/mobile/src/screens/GrowthScreen.tsx.
use kall.Common.{
  Mem-append_left, Mem-append_right, ℕ, String, ◌≡◌, Bool, true, false, Option, List, [], ◌∷◌, Memᴰ,
  Mem-keep, Mem-map, arith, if◌then◌else◌,
}
use kall.Mobile.Task.{Result, ok, failed, Server, run, ◌>>=◌, catch, finally}
use kall.Mobile.Growth.{
  Goal, Plan, Resource, Request, fetch_growth_dashboard, create_goal, generate_plan, Response,
  NewGoal, empty_form, Screen,
}
use kall.Mobile.Growth.Markdown.{before_kept, kept_lines, section, resource_line, plan_lines}
use kall.Mobile.Growth.Handlers.{load, goal_input, is_incomplete, submit_new_goal}

section-Mem :
    {x : String} (heading : String) (xs : List String) → Memᴰ x xs → Memᴰ x (section heading xs)
unfolding section
section-Mem heading [] m = elim m [ ]
section-Mem heading (y ∷ ys) m = Memᴰ.tail (Mem-append_left ("" ∷ []) m)

-- Every saved resource of a plan has its line in the text that is shared.
pub resource_line-Mem :
    (goal : Goal) (plan : Plan) (r : Resource)
    → Memᴰ r plan.resources
    → r.saved ≡ true
    → Memᴰ (resource_line r) (plan_lines goal plan)
unfolding plan_lines
resource_line-Mem goal plan r m h = Mem-append_right (before_kept goal plan) (
    Mem-append_left _ (
      section-Mem "## Saved resources" (kept_lines plan)
        (Mem-map resource_line _ (Mem-keep (λ (x : Resource). x.saved) plan.resources m h))))

module _ (server : Server Request Response) (number : String → Option ℕ) (form : NewGoal)
    (s : Screen) where
  -- The requests that a form sends, the form that is left, and whether it is still open.
  abbrev after_plan : Goal → Result Unit → List Request × NewGoal × Bool
  after_plan goal (ok _) = (
    create_goal (goal_input number form)
        ∷ generate_plan goal.id false
        ∷ fetch_growth_dashboard
        ∷ [],
    empty_form,
    false,
  )
  after_plan goal (failed e) = (
    create_goal (goal_input number form) ∷ generate_plan goal.id false ∷ [],
    s.form,
    s.show_new_goal,
  )

  abbrev after_goal : Result Goal → List Request × NewGoal × Bool
  after_goal (ok goal) =
      after_plan goal
        (server (create_goal (goal_input number form) ∷ []) (generate_plan goal.id false))
  after_goal (failed e) = (create_goal (goal_input number form) ∷ [], s.form, s.show_new_goal)

  abbrev pub outcome : List Request × NewGoal × Bool
  outcome =
      if is_incomplete form
      then ([], s.form, s.show_new_goal)
      else after_goal (server [] (create_goal (goal_input number form)))

  -- A form without a name or a role sends nothing. Otherwise the goal is created and then its plan is asked
  -- for; the form is emptied and closed only if both are granted, and stays as it is otherwise, also
  -- where the goal is created and its plan is not.
  pub submit_new_goal-outcome :
      let e = run server (submit_new_goal number form) s [] in
      (e.sent, e.screen.form, e.screen.show_new_goal) ≡ outcome
  unfolding submit_new_goal load run ◌>>=◌ catch finally
  submit_new_goal-outcome = ground arith
