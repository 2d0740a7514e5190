-- ===== src/Web/Proxy.antt =====
-- The route that passes the pages' calls on to the API, apps/web/app/api/kall/[...path]/route.ts, with the session's
-- token. Headers are keyed by their names in lower case. The session provider is the argument `token`, the API
-- what it answers.
pub mod Laws
pub mod Tests
use kall.Common.{
  ℕ, code, String, Bool, Option, none, some, List, [], ◌∷◌, str_eq, ◌==◌, if◌then◌else◌, contains,
}
use Prim.Native.String
use kall.Common.Text.{is_nonempty, join}
use kall.Record.Values.{lookup, assign}

pub record Environment : Type 0 where
  pub kall_api_url : Option String
  pub next_public_api_url : Option String
  pub node_env : String

unfoldable pub drop_slash : String → String
drop_slash String.[] = ""
drop_slash (String.◌∷◌ c String.[]) = if code c == b'/' then "" else String.◌∷◌ c ""
drop_slash (String.◌∷◌ c (String.◌∷◌ d s)) = String.◌∷◌ c (drop_slash (String.◌∷◌ d s))

-- `a || b` on texts that may be absent.
abbrev pub or_text : Option String → Option String → Option String
or_text none other = other
or_text (some s) other = if is_nonempty s then some s else other

abbrev local_url : String → Option String
local_url node_env = if str_eq node_env "production" then none else some "http://localhost:8000"

abbrev configured : Option String → String → Option String
configured none node_env = local_url node_env
configured (some url) node_env =
    if is_nonempty url then some (drop_slash url) else local_url node_env

unfoldable pub api_base_url : Environment → Option String
unfolding drop_slash
api_base_url env = configured (or_text env.kall_api_url env.next_public_api_url) env.node_env

pub record Request : Type 0 where
  pub method : String
  pub path : List String
  pub search : String
  pub headers : List (String × String)
  pub body : String

-- What `fetch` is called with.
pub record Forwarded : Type 0 where
  pub target : String
  pub search : String
  pub method : String
  pub headers : List (String × String)
  pub body : Option String

pub record Answer : Type 0 where
  pub status : ℕ
  pub headers : List (String × String)
  pub body : String

-- The proxy's answer of its own, or what it forwards.
pub data Proxied : Type 0 where
  unconfigured : Proxied
  forwarded : Forwarded → Proxied

-- `if (value) headers.set(name, value)`
abbrev pub set_header : String → Option String → List (String × String) → List (String × String)
set_header name none headers = headers
set_header name (some v) headers = if is_nonempty v then assign name v headers else headers

abbrev pub bearer : Option String → Option String
bearer none = none
bearer (some token) = if is_nonempty token then some (String.◌++◌ "Bearer " token) else none

abbrev pub has_no_body : String → Bool
has_no_body method = contains method ("GET" ∷ "HEAD" ∷ [])

unfoldable pub forward_headers :
    (token : Option String) → List (String × String) → List (String × String)
unfolding lookup assign
forward_headers token headers =
    set_header "authorization" (bearer token)
      (set_header "content-type" (lookup "content-type" headers) [])

abbrev forward_to : Option String → (token : Option String) → Request → Proxied
forward_to none token request = unconfigured
forward_to (some base_url) token request = forwarded (record {
  target = String.◌++◌ base_url (String.◌++◌ "/api/" (join "/" request.path));
  search = request.search;
  method = request.method;
  headers = forward_headers token request.headers;
  body = if has_no_body request.method then none else some request.body;
})

-- `proxy` up to its fetch
unfoldable pub forward : Environment → (token : Option String) → Request → Proxied
unfolding api_base_url forward_headers join
forward env token request = forward_to (api_base_url env) token request

-- The rest of it.
unfoldable pub respond : Answer → Answer
unfolding lookup assign
respond response = record {
  status = response.status;
  headers =
      set_header "location" (lookup "location" response.headers)
        (set_header "content-type" (lookup "content-type" response.headers) []);
  body = response.body;
}
