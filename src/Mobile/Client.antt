-- ===== src/Mobile/Client.antt =====
-- The mobile API client: apps/mobile/src/api/client.ts. The server, the session provider and the file
-- system are arguments: what they answered.
pub mod Laws
pub mod Errors
pub mod Tests
use kall.Common.{
  ℕ, String, Bool, true, false, not, ◌&&◌, Option, none, some, List, [], ◌∷◌, ◌++◌, ◌==◌,
  if◌then◌else◌,
}
use Prim.Native.String
use mathlib.Core.Option
use kall.Common.Text.{join, is_nonempty}
use kall.Common.Json.{Json, str, arr, obj, null, Items, nil, cons, member, is_truthy, to_text}
use kall.Common.Decimal.{decimal}
use kall.Common.Http.{is_ok, Body, unreadable, empty, malformed, json, body_json, Response}

pub data Method : Type 0 where
  get post put patch delete : Method

pub record Options : Type 0 where
  pub method : Method
  pub body : Option Json
  pub auth : Bool

-- What is sent: a JSON body, or one file in a form.
pub data Payload : Type 0 where
  nothing : Payload
  json_body : Json → Payload
  form : (field uri name type : String) → Payload

pub record Request : Type 0 where
  pub method : Method
  pub url : String
  pub headers : List (String × String)
  pub payload : Payload

-- How a call ends: a value, an `ApiError`, the `TypeError` of a request that never got a response, or
-- the `SyntaxError` of a body that is no JSON.
pub data Outcome {ℓ} (A : Type ℓ) : Type ℓ where
  done : A → Outcome A
  api_error : (message : String) → (status : ℕ) → Outcome A
  network_error : Outcome A
  syntax_error : Outcome A

pub record Run {ℓ} (A : Type ℓ) : Type ℓ where
  pub sent : Option Request
  pub outcome : Outcome A

-- `sessionToken`: null where the provider throws. The outer `none` is the throw.
unfoldable pub session_token : Option (Option String) → Option String
session_token none = none
session_token (some token) = token

-- The token that passes the test `!token`.
abbrev pub usable : Option String → Option String
usable none = none
usable (some token) = if is_nonempty token then some token else none

-- The `msg` of each item, as texts, with those that count as false left out; `none` where an item
-- is null, whose `msg` throws.
unfoldable pub messages : Items → Option (List String)
unfolding to_text
messages nil = some []
messages (cons null vs) = none
messages (cons v vs) = elim (member "msg" v) [
  | none ↦ messages vs
  | some msg ↦
      if is_truthy (some msg)
      then Option.map (λ ms. to_text msg ∷ ms) (messages vs)
      else messages vs
]

abbrev joined : String → Option (List String) → String
joined fallback none = fallback
joined fallback (some ms) = join " · " ms

abbrev message_of : String → Option Json → String
message_of fallback (some (str message)) = message
message_of fallback _ = fallback

unfoldable pub detail_message : String → Option Json → String
unfolding messages
detail_message fallback (some (str detail)) = detail
detail_message fallback (some (arr vs)) = joined fallback (messages vs)
detail_message fallback (some (obj fs)) = message_of fallback (member "message" (obj fs))
detail_message fallback _ = fallback

-- `errorMessage`: a body that is no JSON, and one that is null, give the fallback.
abbrev body_message : String → Option Json → String
body_message fallback none = fallback
body_message fallback (some null) = fallback
body_message fallback (some body) = detail_message fallback (member "detail" body)

unfoldable pub error_message : Response → String → String
unfolding detail_message
error_message response fallback = body_message fallback (body_json response.body)

abbrev pub failure : (verb : String) → ℕ → String
failure verb status = String.◌++◌ verb (String.◌++◌ " failed (" (String.◌++◌ (decimal status) ")"))

abbrev bearer : String → String × String
bearer token = ("Authorization", String.◌++◌ "Bearer " token)

-- The end of `apiRequest`: no content, an empty text, or a text to parse.
abbrev pub read_text : Body → Outcome (Option Json)
read_text unreadable = network_error
read_text empty = done none
read_text malformed = syntax_error
read_text (json j) = done (some j)

abbrev expired : String
expired = "Your session expired. Please sign in again."

-- The answer's way through `apiRequest`; `none` where `fetch` throws.
unfoldable pub receive : (auth : Bool) → Option Response → Outcome (Option Json)
unfolding error_message
receive auth none = network_error
receive auth (some r) =
    if r.status == 401 && auth
    then api_error expired 401
    else if not (is_ok r.status)
    then api_error (error_message r (failure "Request" r.status)) r.status
    else if r.status == 204
    then done none
    else read_text r.body

abbrev content_type : Option Json → List (String × String)
content_type none = []
content_type (some body) = ("Content-Type", "application/json") ∷ []

abbrev payload_of : Option Json → Payload
payload_of none = nothing
payload_of (some body) = json_body body

module _ (base : String) where
  abbrev request : String → Options → List (String × String) → Request
  request path o auth = record {
    method = o.method;
    url = String.◌++◌ base path;
    headers = content_type o.body ++ auth;
    payload = payload_of o.body;
  }

  abbrev with_token : String → Options → Option Response → Option String → Run (Option Json)
  with_token path o answer none = record { sent = none; outcome = api_error "Not signed in" 401 }
  with_token path o answer (some token) = record {
    sent = some (request path o (bearer token ∷ []));
    outcome = receive true answer;
  }

  unfoldable pub api_request :
      String → Options → (token : Option (Option String)) → Option Response → Run (Option Json)
  unfolding session_token receive
  api_request path o token answer =
      if o.auth
      then with_token path o answer (usable (session_token token))
      else record { sent = some (request path o []); outcome = receive false answer }

  -- `headers.get('content-type') || 'application/octet-stream'`
  abbrev mime_type : Option String → String
  mime_type none = "application/octet-stream"
  mime_type (some t) = if is_nonempty t then t else "application/octet-stream"

  abbrev read_bytes : Option String → Body → Outcome (Body × String)
  read_bytes type unreadable = network_error
  read_bytes type body = done (body, mime_type type)

  abbrev download_answer :
      (content_type : Option String) → Option Response → Outcome (Body × String)
  download_answer type none = network_error
  download_answer type (some r) =
      if r.status == 401
      then api_error expired 401
      else if not (is_ok r.status)
      then api_error (error_message r (failure "Download" r.status)) r.status
      else read_bytes type r.body

  abbrev download_with :
      String → Option String → Option Response → Option String → Run (Body × String)
  download_with path type answer none = record {
    sent = none;
    outcome = api_error "Not signed in" 401;
  }
  download_with path type answer (some token) = record {
    sent = some (record {
      method = get;
      url = String.◌++◌ base path;
      headers = bearer token ∷ [];
      payload = nothing;
    });
    outcome = download_answer type answer;
  }

  -- `apiDownload`; the bytes are the body, whatever they hold.
  unfoldable pub api_download :
      String
      → (token : Option (Option String)) → (content_type : Option String) → Option Response
      → Run (Body × String)
  unfolding session_token error_message
  api_download path token type answer =
      download_with path type answer (usable (session_token token))

  abbrev upload_json : Body → Outcome Json
  upload_json unreadable = network_error
  upload_json (json j) = done j
  upload_json _ = syntax_error

  abbrev upload_answer : Option Response → Outcome Json
  upload_answer none = network_error
  upload_answer (some r) =
      if r.status == 401
      then api_error expired 401
      else if not (is_ok r.status)
      then api_error (error_message r (failure "Upload" r.status)) r.status
      else upload_json r.body

  abbrev upload_with :
      String
      → (field uri name type : String) → (exists : Bool) → Option Response
      → Option String
      → Run Json
  upload_with path field uri name type exists answer none = record {
    sent = none;
    outcome = api_error "Not signed in" 401;
  }
  upload_with path field uri name type exists answer (some token) =
      if exists
      then record {
        sent = some (record {
          method = post;
          url = String.◌++◌ base path;
          headers = bearer token ∷ [];
          payload = form field uri name type;
        });
        outcome = upload_answer answer;
      }
      else record {
        sent = none;
        outcome = api_error "Kall could not read that file. Choose it again." 400;
      }

  -- `apiUpload`; `exists` is what the file system says of the file.
  unfoldable pub api_upload :
      String
      → (field uri name type : String) → (exists : Bool) → (token : Option (Option String))
      → Option Response
      → Run Json
  unfolding session_token error_message
  api_upload path field uri name type exists token answer =
      upload_with path field uri name type exists answer (usable (session_token token))

abbrev pub offline : String
offline = "Kall couldn't reach the server. Check your connection and try again."

-- `uploadFailureMessage` of what an upload threw; an upload that did not throw has no message.
unfoldable pub upload_failure_message {ℓ} : {A : Type ℓ} → Outcome A → Option String
upload_failure_message (done a) = none
upload_failure_message (api_error message status) = some message
upload_failure_message network_error = some offline
upload_failure_message syntax_error =
    some "Something went wrong uploading that resume. Please try again."
