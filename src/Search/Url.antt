-- ===== src/Search/Url.antt =====
-- `normalize` and `matchKeys` of apps/web/app/lib/searchResultState.ts, over the platform's URL type.
use kall.Common.{String, ◌≡◌, Option, none, some, List, [], ◌∷◌}
use kall.Common.Text.{trim, before}

-- The platform's `URL` (WHATWG URL standard), which the repository only calls. The last three fields
-- are documented behaviour: what is serialised parses to the same URL, a parsed scheme and host are
-- in lower case (so that setting them to their lower case changes nothing), and an empty fragment
-- may be set twice.
pub record UrlApi : Type 1 where
  pub Url : Type 0
  pub parse : String → Option Url
  pub to_string : Url → String
  pub protocol : Url → String
  pub host : Url → String
  pub set_hash : Url → String → Url
  pub set_protocol : Url → String → Url
  pub set_host : Url → String → Url
  pub lower : String → String
  pub parse-to_string : (u : Url) → parse (to_string u) ≡ some u
  pub set_protocol-lower : (u : Url) → set_protocol u (lower (protocol u)) ≡ u
  pub set_host-lower : (u : Url) → set_host u (lower (host u)) ≡ u
  pub set_hash_twice : (u : Url) → set_hash (set_hash u "") "" ≡ set_hash u ""

module _ (api : UrlApi) where
  -- `normalize`: a text that is no URL is only trimmed.
  unfoldable pub normal : api.Url → api.Url
  normal u =
      let bare = api.set_hash u "" in
      let scheme = api.set_protocol bare (api.lower (api.protocol bare)) in
      api.set_host scheme (api.lower (api.host scheme))

  abbrev pub serialize : String → Option api.Url → String
  serialize url none = trim url
  serialize url (some parsed) = api.to_string (normal parsed)

  unfoldable pub normalize : String → String
  unfolding normal trim
  normalize url = serialize url (api.parse url)

  -- `matchKeys`: the normalised text, and the same up to its first question mark.
  unfoldable pub match_keys : String → List String
  unfolding before
  match_keys url = let normalized = normalize url in normalized ∷ before b'?' normalized ∷ []
