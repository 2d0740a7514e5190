-- ===== src/Web/Board.antt =====
-- The board of applications, apps/web/app/applications/ApplicationsClient.tsx, with the hidden search results that
-- its moves and removals change. The server's answers are arguments.
pub mod Laws
pub mod Tests
use kall.Common.{
  ℕ, String, Bool, true, false, not, ◌&&◌, ◌||◌, Option, none, some, List, [], ◌∷◌, ◌++◌, str_eq,
  ◌==◌, if◌then◌else◌,
}
use Prim.Native.String
use kall.Common.Json.{Json, null, str, arr, obj, member, is_truthy}
use kall.Common.Http.{is_ok}
use kall.Search.Url.{UrlApi}
use kall.Search.Suppression.{Store, applied_external, hide_search_result, restore_search_result}

pub record PipelineItem : Type 0 where
  pub id : ℕ
  pub stage : String
  pub company : String
  pub role : String
  pub job_url : Option String

pub data View : Type 0 where
  loading ready signed_out failed : View

-- What `fetch` and `response.json().catch(() => ({}))` give: a throw with its message, or a status with a body.
pub data Reply : Type 0 where
  threw : (message : String) → Reply
  replied : (status : ℕ) → (body : Json) → Reply

pub data Toast : Type 0 where
  success : String → Toast
  failure : String → Toast

pub record Board : Type 0 where
  pub pipeline : Option Json
  pub view : View
  pub error : String
  pub busy_id : Option ℕ
  pub store : Store
  pub toasts : List Toast

-- An object other than null, as `typeof` has it.
abbrev is_object : Json → Bool
is_object (obj fs) = true
is_object (arr vs) = true
is_object _ = false

abbrev is_array : Option Json → Bool
is_array (some (arr vs)) = true
is_array _ = false

unfoldable pub is_pipeline : Json → Bool
is_pipeline value =
    is_object value && (is_truthy (member "summary" value) && is_array (member "stages" value))

abbrev text_or : String → Option Json → String
text_or fallback (some (str s)) = s
text_or fallback _ = fallback

-- `typeof data.detail === 'string' ? data.detail : …`; reading it of null throws the engine's own message.
abbrev detail_of : (null_error : String) → String → Json → String
detail_of null_error fallback null = null_error
detail_of null_error fallback body = text_or fallback (member "detail" body)

abbrev pub toast : Toast → Board → Board
toast t s = record s { toasts = s.toasts ++ t ∷ [] }

abbrev fails : String → Board → Board
fails message s = record s { error = message; view = failed }

-- `STAGES`, by their keys
unfoldable pub stage_label : String → String
stage_label key =
    if str_eq key "preparing"
    then "Preparing"
    else if str_eq key "review"
    then "Needs review"
    else if str_eq key "approved"
    then "Approved"
    else if str_eq key "submitted"
    then "Submitted"
    else if str_eq key "interview"
    then "Interview"
    else if str_eq key "closed"
    then "Closed"
    else if str_eq key "rejected"
    then "Rejected"
    else key

abbrev pub ends_search : String → Bool
ends_search stage = str_eq stage "closed" || str_eq stage "rejected"

-- A text that is there and not empty.
abbrev pub link : Option String → Option String
link none = none
link (some s) = if str_eq s "" then none else some s

module _ (api : UrlApi) (null_error : String) where
  unfoldable pub load_pipeline : Reply → Board → Board
  unfolding is_pipeline
  load_pipeline (threw message) s = fails message s
  load_pipeline (replied status body) s =
      if status == 401
      then record s { view = signed_out }
      else if not (is_ok status)
      then fails (detail_of null_error "Unable to load applications." body) s
      else if not (is_pipeline body)
      then fails "The applications API returned an unexpected response." s
      else record s { pipeline = some body; view = ready }

  abbrev pub hide_link : (now : String) → PipelineItem → Option String → Store → Store
  hide_link now item none store = store
  hide_link now item (some url) store =
      hide_search_result api url (some item.role) applied_external now store

  abbrev pub after_move : (now : String) → PipelineItem → (stage : String) → Store → Store
  after_move now item stage store =
      if ends_search stage then hide_link now item (link item.job_url) store else store

  abbrev pub restore_link : Option String → Store → Store
  restore_link none store = store
  restore_link (some url) store = restore_search_result api url store

  abbrev url_or : Option String → Option Json → Option String
  url_or other (some (str s)) = some s
  url_or other _ = other

  abbrev pub removed_url : Json → PipelineItem → Option String
  removed_url body item = url_or item.job_url (member "job_url" body)

  abbrev pub moved : String → PipelineItem → String → Board → Board
  moved now item stage s =
      toast (success (String.◌++◌ "Application moved to " (String.◌++◌ (stage_label stage) ".")))
        (record s { store = after_move now item stage s.store })

  abbrev pub removed : Json → PipelineItem → Board → Board
  removed body item s =
      toast (success "Application removed. The job can appear in search results again.")
        (record s { store = restore_link (link (removed_url body item)) s.store })

  -- The answer of the PATCH, then that of the reload.
  abbrev settle_move : String → PipelineItem → String → Reply → Reply → Board → Board
  settle_move now item stage (threw message) reload s = toast (failure message) s
  settle_move now item stage (replied status body) reload s =
      if not (is_ok status)
      then toast (failure (detail_of null_error "Unable to move application." body)) s
      else load_pipeline reload (moved now item stage s)

  unfoldable pub move_application : String → PipelineItem → String → Reply → Reply → Board → Board
  unfolding load_pipeline stage_label
  move_application now item stage reply reload s =
      if str_eq stage item.stage
      then s
      else record (settle_move now item stage reply reload s) { busy_id = none }

  abbrev settle_removal : PipelineItem → Reply → Reply → Board → Board
  settle_removal item (threw message) reload s = toast (failure message) s
  settle_removal item (replied status null) reload s = toast (failure null_error) s
  settle_removal item (replied status body) reload s =
      if not (is_ok status)
      then toast (failure (detail_of null_error "Unable to remove application." body)) s
      else load_pipeline reload (removed body item s)

  unfoldable pub remove_application :
      (confirmed : Bool) → PipelineItem → Reply → Reply → Board → Board
  unfolding load_pipeline
  remove_application confirmed item reply reload s =
      if not confirmed then s else record (settle_removal item reply reload s) { busy_id = none }
