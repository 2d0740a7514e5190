-- ===== src/Web/Gateway/Tests.antt =====
-- Calls of the API at concrete answers.
use kall.Common.{◌≡◌, refl, false, none, some, [], ◌∷◌}
use kall.Common.Json.{Json, str, obj, end, field}
use kall.Common.Http.{json, malformed, Response}
use kall.Web.Gateway.{maintenance_clear, plan_limit, is_plan_refusal, fetch_kall, get_kall}
use kall.Web.Gateway.Laws.{redirects, limits, effects-fetch_kall}

abbrev limit_detail : Json
limit_detail = obj (field "code" (str "plan_limit_reached") end)

abbrev refused : Response
refused = record { status = 402; body = json (obj (field "detail" limit_detail end)) }

paywall :
    (fetch_kall false "/me/applications" (some refused)).effects
    ≡ maintenance_clear ∷ plan_limit limit_detail ∷ []
unfolding fetch_kall
paywall = refl

signed_out : get_kall "/me" (some (record { status = 401; body = malformed })) ≡ some none
unfolding get_kall
signed_out = refl

effects-fetch_kall_example :
    (redirects (fetch_kall false "/me" (some refused)).effects ≡ false)
    × (limits (fetch_kall false "/me" (some refused)).effects ≡ limit_detail ∷ [])
unfolding is_plan_refusal
effects-fetch_kall_example = effects-fetch_kall false "/me" (some refused)
