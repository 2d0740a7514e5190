-- ===== src/Web/Gateway/Laws.antt =====
-- What a call of the API does on every answer, and what the maintenance banner then shows.
use kall.Common.{
  ℕ, String, ◌≡◌, refl, Bool, true, false, not, ◌&&◌, Option, none, some, List, [], ◌∷◌, arith,
  ◌==◌, if◌then◌else◌,
}
use Prim.Native.String
use text.Mathlib.TextLemmas.{cons-append}
use kall.Common.Text.{includes, has_prefix}
use kall.Common.Json.{Json}
use kall.Common.Http.{is_ok, body_json, Response}
use kall.Web.Gateway.{
  PageEffect, to_sign_in, plan_limit, is_gateway_status, is_plan_refusal, fetch_kall, get_kall,
  banner, detail_of,
}

has_prefix-append : (p s : String) → has_prefix p (String.◌++◌ p s) ≡ true
unfolding has_prefix
has_prefix-append String.[] s = refl
has_prefix-append (String.◌∷◌ c p) s = rw cons-append (ground (arith, has_prefix-append p s))

includes_of_prefix : (p s : String) → has_prefix p s ≡ true → includes p s ≡ true
unfolding includes
includes_of_prefix p String.[] h = h
includes_of_prefix p (String.◌∷◌ c s) h = rw h

calls_api : (path : String) → includes "/api/kall" (String.◌++◌ "/api/kall" path) ≡ true
calls_api path = includes_of_prefix "/api/kall" _ (has_prefix-append "/api/kall" path)

-- The status of an answer, with 0 for a throw, and the detail of its body.
abbrev pub status_of : Option Response → ℕ
status_of none = 0
status_of (some r) = r.status

abbrev pub answer_detail : Option Response → Option Json
answer_detail none = none
answer_detail (some r) = detail_of (body_json r.body)

abbrev pub redirects : List PageEffect → Bool
redirects [] = false
redirects (to_sign_in ∷ es) = true
redirects (_ ∷ es) = redirects es

-- The details that the paywall is raised with.
abbrev pub limits : List PageEffect → List Json
limits [] = []
limits (plan_limit d ∷ es) = d ∷ limits es
limits (_ ∷ es) = limits es

abbrev to_list : Option Json → List Json
to_list none = []
to_list (some d) = d ∷ []

module _ (suppress : Bool) (path : String) (answer : Option Response) where
  -- `fetchKall` hands back the very answer that `fetch` gave, and throws only where that throws.
  pub result-fetch_kall : (fetch_kall suppress path answer).result ≡ answer
  unfolding fetch_kall
  result-fetch_kall = rw (calls_api path) (ground arith)

  -- The page goes to the sign-in page exactly on a 401; the paywall is raised, once and with the
  -- detail of the body, exactly on a 402 whose detail has one of the two plan codes, unless the
  -- caller suppresses it.
  pub effects-fetch_kall :
      (redirects (fetch_kall suppress path answer).effects ≡ (status_of answer == 401))
      × (limits (fetch_kall suppress path answer).effects ≡ (
          if status_of answer == 402 && (not suppress && is_plan_refusal (answer_detail answer))
          then to_list (answer_detail answer)
          else []))
  unfolding fetch_kall
  effects-fetch_kall = rw (calls_api path) (ground arith)

  -- After a call the banner is shown exactly if the call threw or met a gateway error, whatever was
  -- shown before.
  pub banner-fetch_kall :
      (visible : Bool)
      → banner visible (fetch_kall suppress path answer).effects
        ≡ elim answer [ none ↦ true | some r ↦ is_gateway_status r.status ]
  unfolding fetch_kall banner
  banner-fetch_kall visible = rw (calls_api path) (ground arith)

-- `getKall` gives a value only for a response that is ok, and null for one that is refused.
pub get_kall_lem :
    (path : String) (r : Response)
    → get_kall path (some r) ≡ (
        if is_ok r.status
        then elim (body_json r.body) [ none ↦ none | some j ↦ some (some j) ]
        else some none)
unfolding get_kall
get_kall_lem path r = rw (result-fetch_kall false path (some r))
