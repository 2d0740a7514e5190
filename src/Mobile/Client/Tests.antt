-- ===== src/Mobile/Client/Tests.antt =====
-- The mobile client at concrete answers.
use kall.Common.{String, ◌≡◌, refl, true, Option, none, some, [], ◌∷◌}
use kall.Common.Decimal.{decimal}
use kall.Common.Json.{str}
use kall.Common.Http.{empty, malformed, Response}
use kall.Mobile.Client.{
  get, Options, Request, nothing, done, api_error, session_token, usable, api_request, api_download,
}
use kall.Mobile.Client.Laws.{IsAuthorized, api_request-IsAuthorized}
use kall.Mobile.Client.Errors.{refusal}

abbrev base : String
base = "https://api.example/api"

abbrev get_me : Options
get_me = record { method = get; body = none; auth = true }

abbrev signed_in : Option (Option String)
signed_in = some (some "t0")

abbrev me_request : Request
me_request = record {
  method = get;
  url = "https://api.example/api/me";
  headers = ("Authorization", "Bearer t0") ∷ [];
  payload = nothing;
}

me_sent : (api_request base "/me" get_me signed_in none).sent ≡ some me_request
unfolding api_request
me_sent = refl

failed_with_status :
    (api_request base "/me" get_me signed_in
      (some (record { status = 500; body = malformed }))).outcome
    ≡ api_error "Request failed (500)" 500
unfolding api_request decimal
failed_with_status = refl

abbrev no_content : Option Response
no_content = some (record { status = 204; body = empty })

deleted : (api_request base "/me" get_me signed_in no_content).outcome ≡ done none
unfolding api_request
deleted = refl

api_request-IsAuthorized_example : IsAuthorized signed_in me_request
api_request-IsAuthorized_example =
    api_request-IsAuthorized base "/me" signed_in none get_me me_request refl me_sent

me_downloaded : (api_download base "/me" signed_in none none).sent ≡ some me_request
unfolding api_download
me_downloaded = refl

not_usable : usable (session_token none) ≡ none
unfolding session_token
not_usable = refl

usable_token : usable (session_token signed_in) ≡ some "t0"
unfolding session_token
usable_token = refl

abbrev too_large : Response
too_large = refusal 413 (str "That file is too large.")
