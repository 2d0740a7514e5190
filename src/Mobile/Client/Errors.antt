-- ===== src/Mobile/Client/Errors.antt =====
-- The messages that the mobile client shows for a refused call.
use kall.Common.{
  ℕ, String, ◌≡◌, refl, ◌≢◌, true, false, Option, none, some, List, [], ◌∷◌, arith, keep,
}
use kall.Common.Text.{join, is_nonempty}
use kall.Common.Json.{Json, str, arr, obj, Items, nil, cons, end, field}
use kall.Common.Http.{json, Response, is_ok}
use kall.Mobile.Client.{
  messages, error_message, api_upload, upload_failure_message, offline, usable, session_token,
}

-- A refusal whose body is an object with this detail.
abbrev pub refusal : ℕ → Json → Response
refusal status detail = record { status = status; body = json (obj (field "detail" detail end)) }

-- A validation error as the server sends it.
abbrev pub issue : String → Json
issue msg = obj (field "msg" (str msg) end)

abbrev pub issues : List String → Items
issues [] = nil
issues (m ∷ ms) = cons (issue m) (issues ms)

messages-issues : (ms : List String) → messages (issues ms) ≡ some (keep is_nonempty ms)
unfolding messages
messages-issues [] = refl
messages-issues (String.[] ∷ ms) = messages-issues ms
messages-issues (String.◌∷◌ c m ∷ ms) = rw (messages-issues ms)

-- The message shown is the detail if that is a text, the `message` of a plan refusal, and of a list
-- of validation errors their messages in order, with empty ones left out.
pub error_message-detail :
    (status : ℕ) (fallback text : String) (ms : List String)
    → (error_message (refusal status (str text)) fallback ≡ text)
      × (error_message (refusal status (obj (field "message" (str text) end))) fallback ≡ text)
      × (error_message (refusal status (arr (issues ms))) fallback
          ≡ join " · " (keep is_nonempty ms))
unfolding error_message
error_message-detail status fallback text ms = (refl, refl, rw (messages-issues ms))

-- Whenever an upload does not end with a value there is a message for it: the server's for a refused
-- one, and the one about the connection for one that got no answer.
pub upload_failure_message-api_upload :
    (base path part uri name mime t : String) (token : Option (Option String)) (status : ℕ)
    (text : String)
    → usable (session_token token) ≡ some t
    → status ≢ 401
    → is_ok status ≡ false
    → (upload_failure_message (api_upload base path part uri name mime true token none).outcome
        ≡ some offline)
      × (upload_failure_message
            (api_upload base path part uri name mime true token
              (some (refusal status (str text)))).outcome
          ≡ some text)
unfolding api_upload upload_failure_message
upload_failure_message-api_upload base path part uri name mime t token status text h other bad =
    (rw h, rw h (ground arith))
