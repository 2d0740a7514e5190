-- ===== src/Mobile/Growth/Handlers.antt =====
-- The handlers of the growth screen and of a goal's card: apps/mobile/src/screens/GrowthScreen.tsx. The number of
-- hours is read by the platform.
use kall.Common.{
  ℕ, String, Bool, true, false, not, ◌||◌, Option, none, some, List, map, ltb, str_eq,
  if◌then◌else◌,
}
use kall.Search.Tokens.Scanning.{size}
use kall.Common.Text.{trim, is_nonempty}
use kall.Mobile.Task.{give, ◌>>=◌, ◌>>◌, set, await, catch, finally, api_message}
use kall.Mobile.Opportunities.{truthy}
use kall.Mobile.Growth.{
  Plan, GoalInput, ResourceHit, fetch_growth_dashboard, create_goal, generate_plan, analyze_skills,
  import_resource, search_plan_resources, pin_resource, NewGoal, empty_form, Card, Screen, Handler,
}

abbrev pub say : String → Screen → Screen
say message s = record s { message = message }

abbrev on_card : (Card → Card) → Screen → Screen
on_card change s = record s { card = change s.card }

unfoldable pub load : Handler Unit
unfolding api_message
load =
    finally
      (catch
        (do
          goals ← await fetch_growth_dashboard
          set (λ s. record s { goals = goals; message = "" }))
        (λ e. set (say (api_message "Unable to load your growth workspace." e))))
      (λ s. record s { loading = false; refreshing = false })

-- The input that a form sends.
unfoldable pub goal_input : (number : String → Option ℕ) → NewGoal → GoalInput
unfolding trim
goal_input number form = record {
  title = trim form.title;
  target_role = trim form.target_role;
  target_industry =
      if is_nonempty (trim form.target_industry) then some (trim form.target_industry) else none;
  time_per_week_hours = truthy (number form.hours_per_week);
  budget_preference = form.budget;
}

unfoldable pub is_incomplete : NewGoal → Bool
unfolding trim
is_incomplete form =
    not (is_nonempty (trim form.title)) || not (is_nonempty (trim form.target_role))

-- `submitNewGoal` of a form as it was drawn.
unfoldable pub submit_new_goal : (number : String → Option ℕ) → NewGoal → Handler Unit
unfolding load goal_input is_incomplete api_message
submit_new_goal number form =
    if is_incomplete form then set (say "Give the goal a name and a target role first.") else (do
      set (λ s. record s { creating = true; message = "Building your plan…" })
      finally
          (catch
            (do
              goal ← await (create_goal (goal_input number form))
              await (generate_plan goal.id false)
              set (λ s. record s { form = empty_form; show_new_goal = false })
              load
              set (say "Your growth plan is ready."))
            (λ e. set (say (api_message "Unable to create that goal." e))))
          (λ s. record s { creating = false }))

unfoldable pub handle_generate : (goal : ℕ) (regenerate : Bool) → Handler Unit
unfolding load api_message
handle_generate goal regenerate = do
  set (say (if regenerate then "Regenerating your plan…" else "Building your plan…"))
  catch
      (do
        await (generate_plan goal regenerate)
        load
        set (say (if regenerate then "Growth plan regenerated." else "Growth plan created.")))
      (λ e. set (say (api_message "Unable to generate that plan." e)))

unfoldable pub start_goal : String → Handler Unit
start_goal goal =
    set (λ s. record s { form = record s.form { title = goal }; show_new_goal = true })

unfoldable pub handle_search : Option Plan → (category : String) → Handler Unit
unfolding api_message
handle_search none category = give tt
handle_search (some plan) category = do
  set (on_card (λ c. record c { searching_hits = true; hits_category = some category }))
  finally
      (catch
        (do
          found ← await (search_plan_resources plan.id category)
          if found.enabled
              then set (on_card (λ c. record c { hits = some found.results }))
              else set (λ s.
                on_card (λ c. record c { hits = none })
                  (say
                    "Resource search is not available right now. Open the search in your browser instead."
                    s)))
        (λ e. set (say (api_message "Unable to search for resources right now." e))))
      (on_card (λ c. record c { searching_hits = false }))

abbrev mark_saved : (url : String) → ResourceHit → ResourceHit
mark_saved url hit = if str_eq hit.url url then record hit { saved = true } else hit

abbrev marked : (url : String) → Option (List ResourceHit) → Option (List ResourceHit)
marked url none = none
marked url (some hits) = some (map (mark_saved url) hits)

unfoldable pub handle_save_hit : Option Plan → ResourceHit → Handler Unit
unfolding load api_message
handle_save_hit none hit = give tt
handle_save_hit (some plan) hit = do
  set (on_card (λ c. record c { saving_hit_url = some hit.url }))
  finally
      (catch
        (do
          await (
              import_resource plan.id hit.url hit.title
                (if is_nonempty hit.snippet then some hit.snippet else none))
          set (on_card (λ c. record c { hits = marked hit.url c.hits }))
          load)
        (λ e. set (say (api_message "Unable to save that resource." e))))
      (on_card (λ c. record c { saving_hit_url = none }))

-- `handleAnalyze` of an answer as it was drawn.
unfoldable pub handle_analyze : (goal : ℕ) (answer : String) → Handler Unit
unfolding load trim api_message
handle_analyze goal answer =
    if ltb (size (trim answer)) 2
    then set (say "Describe your current skills or background first.")
    else (do
      set (on_card (λ c. record c { analyzing = true }))
      finally
          (catch
            (do
              await (analyze_skills goal (trim answer))
              set (on_card (λ c. record c { answer = "" }))
              load)
            (λ e. set (say (api_message "Unable to analyze your skills right now." e))))
          (on_card (λ c. record c { analyzing = false })))

abbrev refused : Handler Unit
refused = set (say "Add both a URL and a title to save a resource.")

-- `handleSaveResource` of a card as it was drawn.
unfoldable pub handle_save_resource : Option Plan → (drawn : Card) → Handler Unit
unfolding load trim api_message
handle_save_resource none drawn = refused
handle_save_resource (some plan) drawn =
    if not (is_nonempty (trim drawn.resource_url)) || not (is_nonempty (trim drawn.resource_title))
    then refused
    else (do
      set (on_card (λ c. record c { saving_resource = true }))
      finally
          (catch
            (do
              await (
                  import_resource plan.id (trim drawn.resource_url) (trim drawn.resource_title)
                    none)
              set (on_card (λ c. record c { resource_url = ""; resource_title = "" }))
              load)
            (λ e. set (say (api_message "Unable to save that resource." e))))
          (on_card (λ c. record c { saving_resource = false })))

unfoldable pub handle_pin : (resource : ℕ) (saved : Bool) → Handler Unit
unfolding load api_message
handle_pin resource saved = do
  set (on_card (λ c. record c { pending_resource_id = some resource }))
  finally
      (catch (do await (pin_resource resource saved); load)
        (λ e. set (say (api_message "Unable to update that resource." e))))
      (on_card (λ c. record c { pending_resource_id = none }))
