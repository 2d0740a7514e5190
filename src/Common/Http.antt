-- ===== src/Common/Http.antt =====
-- What `fetch` gives back, as the source reads it.
use Prim.Native.Nat.{ℕ}
use mathlib.Core.Bool.{Bool, ◌&&◌}
use mathlib.Core.Option.{Option, none, some}
use kall.Common.Tests.{leb}
use kall.Common.Json.{Json}

-- A throw, or a status with a body, which is `none` where reading it throws.
pub data Fetched {ℓ} (A : Type ℓ) : Type ℓ where
  failed : Fetched A
  answered : (status : ℕ) → (body : Option A) → Fetched A

-- `response.ok`
abbrev pub is_ok : ℕ → Bool
is_ok status = leb 200 status && leb status 299

-- A body that cannot be read to its end, that is empty, that is no JSON, or that parses.
pub data Body : Type 0 where
  unreadable empty malformed : Body
  json : Json → Body

-- `response.json()`, with `none` where it throws.
abbrev pub body_json : Body → Option Json
body_json (json j) = some j
body_json _ = none

pub record Response : Type 0 where
  pub status : ℕ
  pub body : Body
