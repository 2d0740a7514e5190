-- ===== src/Mobile/OpportunityDetail.antt =====
-- The screen of one posting: apps/mobile/src/screens/OpportunityDetailScreen.tsx, its state, its requests
-- and its handlers. How the resumes are ranked is in OpportunityDetail/Ranking.
pub mod Ranking
pub mod Laws
pub mod Races
pub mod Tests
use kall.Common.{
  ℕ, code, String, Bool, true, false, not, ◌&&◌, Option, none, some, List, [], ◌∷◌, ◌==◌,
  if◌then◌else◌, any, find, head,
}
use Prim.Native.String
use kall.Common.Text.{is_nonempty}
use kall.Mobile.Task.{
  Task, give, update, read, ◌>>=◌, set, await, catch, finally, api_message, ◌>>◌,
}

-- The parts of a feed item that the handlers read.
pub record Item : Type 0 where
  pub job_id : ℕ
  pub title : String
  pub company : String
  pub url : String

pub record Resume : Type 0 where
  pub id : ℕ
  pub name : String
  pub is_default : Bool

pub record ResumeScore : Type 0 where
  pub resume_id : ℕ
  pub total_score : ℕ
  pub explanation : List String
  pub gaps : List String

pub record ResumeSelection : Type 0 where
  pub recommended_resume_id : Option ℕ
  pub selected_resume_id : Option ℕ
  pub selection_source : String

pub record Coverage : Type 0 where
  pub covered : ℕ
  pub total : ℕ

pub record JobIntelligence : Type 0 where
  pub scores : List ResumeScore
  pub coverage : List (String × Coverage)
  pub selection : Option ResumeSelection

pub record ExistingApplication : Type 0 where
  pub id : ℕ
  pub stage : String
  pub completed : Bool
  pub created_at : Option String
  pub submitted_at : Option String
  pub company : Option String
  pub title : Option String

pub record PreparedApplication : Type 0 where
  pub id : ℕ
  pub status : String

pub data OpportunityState : Type 0 where
  new saved reviewing apply not_interested archived : OpportunityState

pub data SuppressionReason : Type 0 where
  dead_link applied_external applied_kall not_relevant hidden : SuppressionReason

-- The calls of the API that this screen makes.
pub data Request : Type 0 where
  fetch_resume_studio : Request
  analyze_job : (job : ℕ) → Request
  build_intelligence fetch_intelligence : (job profile : ℕ) → Request
  select_resume : (job profile resume : ℕ) → Request
  check_existing_application : (job : ℕ) (url : String) → Request
  track_external_application :
      (url title : String) (profile : ℕ) (mark_submitted_anyway : Bool) → Request
  suppress_result : (url title : String) → SuppressionReason → Request
  update_opportunity_state : ℕ → OpportunityState → Request
  prepare_application : (job profile : ℕ) (resume : Option ℕ) (customize cover : Bool) → Request

abbrev pub Response : Request → Type 0
Response fetch_resume_studio = List Resume
Response (fetch_intelligence job profile) = JobIntelligence
Response (check_existing_application job url) = Option ExistingApplication
Response (prepare_application job profile resume customize cover) = PreparedApplication
Response _ = Unit

-- A dialog that is put to the person, and a place that the screen opens.
pub data Prompt : Type 0 where
  did_you_apply hide_as_dead_link : Prompt
  finish_in_kall already_applied continue_application : ExistingApplication → Prompt
  application_ready : PreparedApplication → Prompt

pub data Destination : Type 0 where
  browser : String → Destination
  application : (id : ℕ) (company role stage : String) → Destination
  back : Destination

pub record Screen : Type 0 where
  pub resumes : List Resume
  pub resume_id : Option ℕ
  pub intelligence : Option JobIntelligence
  pub ranking : Bool
  pub customize : Bool
  pub cover : Bool
  pub busy : Bool
  pub message : String
  pub ask_on_return : Bool
  pub cancelled : Bool
  pub prompts : List Prompt
  pub visited : List Destination

abbrev pub initial : Screen
initial = record {
  resumes = [];
  resume_id = none;
  intelligence = none;
  ranking = false;
  customize = true;
  cover = true;
  busy = false;
  message = "";
  ask_on_return = false;
  cancelled = false;
  prompts = [];
  visited = [];
}

abbrev pub Handler : Type 0 → Type 0
Handler A = Task Screen Request Response A

abbrev done : Handler Unit
done = give tt

abbrev pub say : String → Screen → Screen
say message s = record s { message = message }

abbrev set_busy : Bool → Screen → Screen
set_busy b s = record s { busy = b }

abbrev pub ask : Prompt → Screen → Screen
ask prompt s = record s { prompts = prompt ∷ s.prompts }

abbrev visit : Destination → Screen → Screen
visit place s = record s { visited = place ∷ s.visited }

abbrev pub or_else {ℓ} : {A : Type ℓ} → Option A → Option A → Option A
or_else none b = b
or_else (some a) b = some a

abbrev id_of : Option Resume → Option ℕ
id_of none = none
id_of (some r) = some r.id

-- `studio.resumes.find((r) => r.is_default) || studio.resumes[0]`, and its identifier.
unfoldable pub preferred : List Resume → Option ℕ
preferred resumes = id_of (or_else (find (λ r. r.is_default) resumes) (head resumes))

abbrev by_selection : (ResumeSelection → Option ℕ) → JobIntelligence → Option ℕ
by_selection field result = elim result.selection [ none ↦ none | some x ↦ field x ]

abbrev best_scored : JobIntelligence → Option ℕ
best_scored result = elim (head result.scores) [ none ↦ none | some score ↦ some score.resume_id ]

-- What the ranking chooses: the person's earlier choice, Kall's, or the resume scored first.
unfoldable pub chosen : JobIntelligence → Option ℕ
chosen result =
    or_else (by_selection (λ x. x.selected_resume_id) result)
      (or_else (by_selection (λ x. x.recommended_resume_id) result) (best_scored result))

-- `if (chosen && studio.resumes.some((r) => r.id === chosen)) setResumeId(chosen)`
abbrev preselect_id : List Resume → Option ℕ → Screen → Screen
preselect_id resumes none s = s
preselect_id resumes (some id) s =
    if not (id == 0) && any (λ r. r.id == id) resumes then record s { resume_id = some id } else s

unfoldable pub preselect : List Resume → JobIntelligence → Screen → Screen
unfolding chosen
preselect resumes result s = preselect_id resumes (chosen result) s

-- `rankResumes`: the calls in the order that the backend requires.
unfoldable pub rank_resumes : (job profile : ℕ) → Handler JobIntelligence
unfolding ◌>>=◌
rank_resumes job profile = do
  await (analyze_job job)
  await (build_intelligence job profile)
  await (fetch_intelligence job profile)

abbrev unless_cancelled : Handler Unit → Handler Unit
unless_cancelled t = read (λ s. if s.cancelled then done else t)

-- The app comes back to the front.
unfoldable pub returned_to_app : Handler Unit
returned_to_app =
    set (λ s. if s.ask_on_return then ask did_you_apply (record s { ask_on_return = false }) else s)

-- `markDeadLink`; the button of its dialog is `hide_dead_link`.
unfoldable pub mark_dead_link : Handler Unit
mark_dead_link = set (ask hide_as_dead_link)

abbrev tracked_text : OpportunityState → String
tracked_text saved = "Saved for later."
tracked_text _ = "Removed from your job list."

abbrev track_id : OpportunityState → ℕ → Handler Unit
track_id state id = do
  set (set_busy true)
  finally
      (catch (do await (update_opportunity_state id state); set (say (tracked_text state)))
        (λ e. set (say (api_message "Unable to update this role." e))))
      (set_busy false)

unfoldable pub track : Option ℕ → OpportunityState → Handler Unit
unfolding ◌>>=◌ catch finally api_message
track none state = set (say "Run a search to add this role to your tracked inbox first.")
track (some id) state =
    if id == 0
    then set (say "Run a search to add this role to your tracked inbox first.")
    else track_id state id

abbrev or_text : Option String → String → String
or_text none fallback = fallback
or_text (some t) fallback = t

module _ (item : Item) where
  unfoldable pub open_listing : Handler Unit
  open_listing = set (λ s. visit (browser item.url) (record s { ask_on_return = true }))

  unfoldable pub open_existing : ExistingApplication → Handler Unit
  open_existing e = set (
      visit
        (application e.id (or_text e.company item.company) (or_text e.title item.title) e.stage))

module _ (item : Item) (profile : ℕ) where
  abbrev ranked : List Resume → Handler Unit
  ranked resumes = do
    result ← rank_resumes item.job_id profile
    unless_cancelled (set (λ s. preselect resumes result (record s { intelligence = some result })))

  abbrev shown : List Resume → Handler Unit
  shown [] = set (λ s. record s { resumes = []; resume_id = none })
  shown (r ∷ rs) = do
    set (λ s. record s { resumes = r ∷ rs; resume_id = preferred (r ∷ rs); ranking = true })
    finally (catch (ranked (r ∷ rs)) (λ _. done))
        (λ s. if s.cancelled then s else record s { ranking = false })

  -- The effect that runs when the screen opens.
  unfoldable pub opened : Handler Unit
  unfolding ◌>>=◌ catch finally rank_resumes preferred preselect
  opened =
      catch (do resumes ← await fetch_resume_studio; unless_cancelled (shown resumes))
        (λ _. set (say "Resume choices are unavailable. You can still prepare without one."))

  -- `.catch(() => ({ application: null }))` behind the check for an application.
  abbrev existing : Handler (Option ExistingApplication)
  existing = catch (await (check_existing_application item.job_id item.url)) (λ _. give none)

  abbrev record_applied : (mark_anyway : Bool) → Handler Unit
  record_applied mark_anyway = do
    await (track_external_application item.url item.title profile mark_anyway)
    catch (await (suppress_result item.url item.title applied_external)) (λ _. give tt)
    set (say "Recorded in your pipeline as submitted.")

  abbrev unless_started : Option ExistingApplication → Handler Unit
  unless_started none = record_applied false
  unless_started (some e) =
      if e.completed
      then record_applied false
      else set (λ s. ask (finish_in_kall e) (set_busy false s))

  unfoldable pub track_applied : (mark_anyway : Bool) → Handler Unit
  unfolding ◌>>=◌ catch finally api_message
  track_applied mark_anyway = do
    set (set_busy true)
    finally
        (catch (if mark_anyway then record_applied true else (existing >>= unless_started))
          (λ e. set (say (api_message "Unable to record that application." e))))
        (set_busy false)

  unfoldable pub hide_dead_link : Handler Unit
  unfolding ◌>>=◌ catch api_message
  hide_dead_link = do
    set (set_busy true)
    catch (do await (suppress_result item.url item.title dead_link); set (visit back))
        (λ e. set (λ s. set_busy false (say (api_message "Unable to hide this posting." e) s)))

  unfoldable pub choose_resume : Option JobIntelligence → ℕ → Handler Unit
  unfolding ◌>>=◌ catch
  choose_resume intelligence id = do
    set (λ s. record s { resume_id = some id })
    elim intelligence [
      | none ↦ done
      | some _ ↦ catch (await (select_resume item.job_id profile id)) (λ _. give tt)
    ]

  abbrev offer : ExistingApplication → Prompt
  offer e = if e.completed then already_applied e else continue_application e

  -- What `prepare` captured of the screen: the resume and the two switches.
  abbrev prepare_new : (resume : Option ℕ) (customize cover : Bool) → Handler Unit
  prepare_new resume customize cover = do
    set (say "Preparing your application...")
    app ← await (prepare_application item.job_id profile resume customize cover)
    set (λ s. say "Application prepared for review." (ask (application_ready app) s))

  abbrev prepare_unless : Option ℕ → Bool → Bool → Option ExistingApplication → Handler Unit
  prepare_unless resume customize cover none = prepare_new resume customize cover
  prepare_unless resume customize cover (some e) =
      set (λ s. ask (offer e) (say "" (set_busy false s)))

  unfoldable pub prepare : (resume : Option ℕ) (customize cover : Bool) → Handler Unit
  unfolding ◌>>=◌ catch finally api_message
  prepare resume customize cover = do
    set (λ s. say "Checking your pipeline..." (set_busy true s))
    finally
        (catch (existing >>= prepare_unless resume customize cover)
          (λ e. set (say (api_message "Unable to prepare this application." e))))
        (set_busy false)

-- `value.replace(/_/g, " ")`
unfoldable pub spaced : String → String
spaced String.[] = ""
spaced (String.◌∷◌ c s) =
    let rest = spaced s in if code c == b'_' then String.◌∷◌ " " rest else String.◌∷◌ c rest

abbrev date_or_earlier : (String → String) → Option String → String
date_or_earlier date_text none = "earlier"
date_or_earlier date_text (some t) = if is_nonempty t then date_text t else "earlier"

-- `describeExisting`, with the platform's text of a date.
unfoldable pub describe_existing : (date_text : String → String) → ExistingApplication → String
unfolding spaced
describe_existing date_text e =
    let date = date_or_earlier date_text (or_else e.submitted_at e.created_at) in
    if e.completed
    then String.◌++◌ "You applied to this role on " (String.◌++◌ date ".")
    else String.◌++◌ "You already started this application on "
        (String.◌++◌ date (String.◌++◌ "; it is in " (String.◌++◌ (spaced e.stage) ".")))
