-- ===== src/Web/Proxy/Tests.antt =====
-- The proxy at a concrete request.
use kall.Common.{◌≡◌, refl, none, some, [], ◌∷◌}
use kall.Record.Values.{lookup}
use kall.Web.Proxy.{Environment, Request, Answer, forwarded, forward_headers, forward}
use kall.Web.Proxy.Laws.{forward_headers-authorization}

abbrev request : Request
request = record {
  method = "GET";
  path = "me" ∷ "applications" ∷ [];
  search = "?page=2";
  headers =
      ("authorization", "Bearer forged")
      ∷ ("content-type", "application/json")
      ∷ ("cookie", "a=b")
      ∷ [];
  body = "";
}

abbrev environment : Environment
environment = record {
  kall_api_url = some "";
  next_public_api_url = some "https://api.example/";
  node_env = "production";
}

passed_on :
    forward environment (some "t") request
    ≡ forwarded (record {
      target = "https://api.example/api/me/applications";
      search = "?page=2";
      method = "GET";
      headers = ("content-type", "application/json") ∷ ("authorization", "Bearer t") ∷ [];
      body = none;
    })
unfolding forward
passed_on = refl

forward_headers-authorization_example :
    lookup "authorization" (forward_headers (some "t") request.headers) ≡ some "Bearer t"
forward_headers-authorization_example = forward_headers-authorization (some "t") request.headers

abbrev response : Answer
response = record {
  status = 302;
  headers = ("location", "/x") ∷ ("set-cookie", "s=1") ∷ [];
  body = "";
}
