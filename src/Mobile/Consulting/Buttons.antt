-- ===== src/Mobile/Consulting/Buttons.antt =====
-- The buttons of the records on the consulting screen, each with the condition that enables it:
-- apps/mobile/src/screens/ConsultingScreen.tsx.
use kall.Common.{
  ℕ, String, ◌≡◌, refl, ap, ◌∙◌, Bool, false, not, ◌||◌, Option, none, some, List, arith, str_eq,
  if◌then◌else◌,
}
use Prim.Native.String
use kall.Common.Text.{is_nonempty}
use kall.Mobile.Task.Runs.{run-bind, run-catch, caught, continued}
use kall.Mobile.Task.{
  Failure, Result, ok, failed, End, api_message, Server, run, ◌>>◌, ◌>>=◌, set, await, catch,
}
use kall.Mobile.Consulting.{
  Proposal, FollowUp, Engagement, Request, approve_proposal, approve_follow_up, complete_follow_up,
  update_engagement, Response, Screen,
}
use kall.Mobile.Consulting.Actions.{Handler, text_of, say, load, action, discover_leads}

-- Another profile is chosen: its searches are prepared with the focus that is typed.
unfoldable pub choose_profile : (profile : ℕ) (focus : String) → Handler Unit
unfolding discover_leads
choose_profile profile focus = do
  set (λ s. record s { profile_id = some profile })
  discover_leads profile focus false

unfoldable pub filter_leads : (warm_only : Bool) → Handler Unit
filter_leads warm_only = set (λ s. record s { warm_only = warm_only })

unfoldable pub follow_up_button : (dollars : ℕ → String) → FollowUp → Option (Handler Unit)
unfolding action
follow_up_button dollars item =
    if str_eq item.status "draft"
    then (if is_nonempty (text_of item.draft_message)
        then some (
            action dollars (await (approve_follow_up item.id)) "Follow-up approved for manual use.")
        else none)
    else if str_eq item.status "approved_for_manual_use"
    then some (action dollars (await (complete_follow_up item.id)) "Follow-up completed.")
    else none

unfoldable pub proposal_button : (dollars : ℕ → String) → Proposal → Option (Handler Unit)
unfolding action
proposal_button dollars item =
    if str_eq item.status "draft"
    then some
        (action dollars (await (approve_proposal item.id)) "Proposal approved for manual use.")
    else none

abbrev or_discovery : Option String → String
or_discovery stage = if is_nonempty (text_of stage) then text_of stage else "discovery"

-- `values[Math.min(values.indexOf(stage) + 1, 3)]`, where a text that is none of them has the index -1.
unfoldable pub next_partner_stage : String → String
next_partner_stage stage =
    if str_eq "discovery" stage
    then "proposed"
    else if str_eq "proposed" stage
    then "active"
    else if str_eq "active" stage || str_eq "completed" stage
    then "completed"
    else "discovery"

-- The button of an engagement of the design partner.
unfoldable pub partner_button : (dollars : ℕ → String) → Engagement → Option (Handler Unit)
unfolding action
partner_button dollars item =
    if not (str_eq (text_of item.design_partner_product) "vaettir")
      || str_eq (text_of item.design_partner_stage) "completed"
      || str_eq (text_of item.design_partner_stage) "declined"
    then none
    else let next = next_partner_stage (or_discovery item.design_partner_stage) in
      some (
        action dollars (await (update_engagement item.id next))
          (String.◌++◌ "Vaettir partner moved to " (String.◌++◌ next ".")))

module _ (server : Server Request Response) (dollars : ℕ → String) where
  abbrev ended : Screen → List Request → End Screen Request Unit
  ended s sent = run server (load dollars) s sent

  load-value : (s : Screen) (sent : List Request) → (ended s sent).value ≡ ok tt
  unfolding load run
  load-value s sent = ground arith

  abbrev reported : (text : String) → Handler Unit
  reported text = load dollars >> set (say text)

  reported-run :
      (text : String) (s : Screen) (sent : List Request)
      → run server (reported text) s sent ≡ record {
        value = ok tt;
        screen = say text (ended s sent).screen;
        sent = (ended s sent).sent;
      }
  unfolding run
  reported-run text s sent =
      let e = ended s sent in
      run-bind server (load dollars) (λ _. set (say text)) s sent
      ∙ ap (λ (v : Result Unit). continued server (λ _. set (say text)) v e.screen e.sent)
          (load-value s sent)

  abbrev pub outcome : (text : String) → Result Unit → String
  outcome text (ok _) = text
  outcome text (failed e) = api_message "Kall could not save that change." e

  abbrev refused : Failure → Handler Unit
  refused e = set (say (api_message "Kall could not save that change." e))

  abbrev message_of : End Screen Request Unit → String
  message_of e = (caught server refused e.value e.screen e.sent).screen.message

  after_work :
      (text : String) (v : Result Unit) (s : Screen) (sent : List Request)
      → message_of (continued server (λ _. reported text) v s sent) ≡ outcome text v
  unfolding run
  after_work text (ok _) s sent = ap message_of (reported-run text s sent)
  after_work text (failed e) s sent = refl

  -- Work that ends without a failure is reported as saved, even where the reload after it has failed and
  -- said so; of work that fails the person is told its message or the fallback.
  pub action-message :
      (work : Handler Unit) (text : String) (s : Screen) (sent : List Request)
      → (run server (action dollars work text) s sent).screen.message
        ≡ outcome text (run server work (say "Saving…" s) sent).value
  unfolding action run ◌>>=◌ catch
  action-message work text s sent =
      let begun = say "Saving…" s in
      let w = run server work begun sent in
      ap (λ (e : End Screen Request Unit). e.screen.message)
        (run-catch server (work >> reported text) refused begun sent)
      ∙ ap message_of (run-bind server work (λ _. reported text) begun sent)
      ∙ after_work text w.value w.screen w.sent
