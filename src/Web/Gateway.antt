-- ===== src/Web/Gateway.antt =====
-- How the web pages call the API: `fetchKall` and `getKall` of apps/web/app/lib/api.ts, over the patched
-- `fetch` of apps/web/app/components/MaintenanceBanner.tsx.
pub mod Laws
pub mod Tests
use kall.Common.{
  ℕ, code, String, Bool, true, false, not, ◌&&◌, ◌||◌, Option, none, some, List, [], ◌∷◌, ◌++◌,
  str_eq, ◌==◌, if◌then◌else◌,
}
use Prim.Native.String
use kall.Common.Text.{includes}
use kall.Common.Json.{Json, str, member}
use kall.Common.Http.{is_ok, body_json, Response}

-- What a call does to the page besides its result.
pub data PageEffect : Type 0 where
  maintenance maintenance_clear to_sign_in : PageEffect
  plan_limit : Json → PageEffect

-- The result of a call, `none` where it throws, and the effects in order.
pub record Call : Type 0 where
  pub result : Option Response
  pub effects : List PageEffect

abbrev pub is_gateway_status : ℕ → Bool
is_gateway_status status = status == 502 || status == 503 || status == 504

abbrev observed : Option Response → Call
observed none = record { result = none; effects = maintenance ∷ [] }
observed (some r) = record {
  result = some r;
  effects = (if is_gateway_status r.status then maintenance else maintenance_clear) ∷ [];
}

-- The `window.fetch` that `patchFetchOnce` installs; `answer` is what the original gives.
unfoldable pub patched_fetch : String → Option Response → Call
unfolding includes
patched_fetch url answer =
    if includes "/api/kall" url then observed answer else record { result = answer; effects = [] }

abbrev is_str : String → Option Json → Bool
is_str s (some (str t)) = str_eq t s
is_str s _ = false

-- `detail?.code` of a body that has been read
abbrev detail_of : Option Json → Option Json
detail_of none = none
detail_of (some body) = member "detail" body

abbrev code_of : Option Json → Option Json
code_of none = none
code_of (some detail) = member "code" detail

unfoldable pub is_plan_refusal : Option Json → Bool
is_plan_refusal detail =
    is_str "plan_limit_reached" (code_of detail) || is_str "plan_required" (code_of detail)

abbrev raise_limit : Option Json → List PageEffect
raise_limit none = []
raise_limit (some detail) = if is_plan_refusal (some detail) then plan_limit detail ∷ [] else []

-- `fetchKall` once the response is there
abbrev handled : Bool → Call → Option Response → Call
handled suppress call none = call
handled suppress call (some r) =
    if r.status == 401
    then record call { effects = call.effects ++ to_sign_in ∷ [] }
    else if r.status == 402 && not suppress
    then record call { effects = call.effects ++ raise_limit (detail_of (body_json r.body)) }
    else call

unfoldable pub fetch_kall : (suppress_plan_limit_dialog : Bool) → String → Option Response → Call
unfolding patched_fetch is_plan_refusal
fetch_kall suppress path answer =
    let call = patched_fetch (String.◌++◌ "/api/kall" path) answer in
    handled suppress call call.result

-- What `getKall` resolves to: a value or null, or `none` where it throws.
abbrev read_json : Response → Option (Option Json)
read_json r =
    if is_ok r.status
    then elim (body_json r.body) [ none ↦ none | some j ↦ some (some j) ]
    else some none

abbrev read_result : Option Response → Option (Option Json)
read_result none = none
read_result (some r) = read_json r

unfoldable pub get_kall : String → Option Response → Option (Option Json)
unfolding fetch_kall
get_kall path answer = read_result (fetch_kall false path answer).result

-- The banner: the two events, and the button that dismisses it.
pub data BannerEvent : Type 0 where
  page : PageEffect → BannerEvent
  dismiss : BannerEvent

unfoldable pub banner_step : Bool → BannerEvent → Bool
banner_step visible (page maintenance) = true
banner_step visible (page maintenance_clear) = false
banner_step visible (page _) = visible
banner_step visible dismiss = false

unfoldable pub banner : Bool → List PageEffect → Bool
unfolding banner_step
banner visible [] = visible
banner visible (e ∷ es) = banner (banner_step visible (page e)) es
