-- ===== src/Mobile/Client/Laws.antt =====
-- What the three operations of the mobile client guarantee about requests and statuses.
use kall.Common.{
  String, ◌≡◌, refl, ◌⊎◌, inl, inr, Bool, true, false, ◌&&◌, Option, none, some, List, [], ◌∷◌,
  ◌++◌, arith, ◌==◌, if◌then◌else◌, Bool-cases, Option-cases,
}
use Prim.Native.String
use mathlib.Core.List.{Memᴰ}
use mathlib.Core.Path.{subst}
use mathlib.Core.Option.{some-injective}
use kall.Common.Text.{is_nonempty}
use kall.Common.Json.{Json}
use kall.Common.Http.{is_ok, Response}
use kall.Mobile.Client.{
  Options, Request, done, api_error, session_token, usable, error_message, failure, receive,
  api_request, api_download, api_upload, with_token, download_with, upload_with, content_type,
  expired,
}

-- The request carries this session's token, and the token is not empty.
abbrev pub IsAuthorized : Option (Option String) → Request → Type 0
IsAuthorized token r =
    (t : String) × (session_token token ≡ some t)
    × (is_nonempty t ≡ true)
    × Memᴰ ("Authorization", String.◌++◌ "Bearer " t) r.headers

usable-eq-some :
    (o : Option String) (t : String) → usable o ≡ some t → (o ≡ some t) × (is_nonempty t ≡ true)
usable-eq-some none t h = cc
usable-eq-some (some s) t h = ground arith

mem_last : {A : Type 0} (x : A) (xs : List A) → Memᴰ x (xs ++ x ∷ [])
mem_last x [] = Memᴰ.head refl
mem_last x (y ∷ xs) = Memᴰ.tail (mem_last x xs)

of_headers :
    (token : Option (Option String)) (t : String) (q r : Request)
    → usable (session_token token) ≡ some t
    → some q ≡ some r
    → Memᴰ ("Authorization", String.◌++◌ "Bearer " t) q.headers
    → IsAuthorized token r
of_headers token t q r e h m =
    let (same, full) = usable-eq-some (session_token token) t e in
    (
      t,
      same,
      full,
      subst (λ (p : Request). Memᴰ ("Authorization", String.◌++◌ "Bearer " t) p.headers)
          (some-injective q r h) m,
    )

module _ (base path : String) (token : Option (Option String)) (answer : Option Response)
    (r : Request) where
  request-IsAuthorized :
      (o : Options) (found : Option String)
      → usable (session_token token) ≡ found
      → (with_token base path o answer found).sent ≡ some r
      → IsAuthorized token r
  request-IsAuthorized o none e h = cc
  request-IsAuthorized o (some t) e h =
      of_headers token t _ r e h (mem_last _ (content_type o.body))

  download_request-IsAuthorized :
      (type : Option String) (found : Option String)
      → usable (session_token token) ≡ found
      → (download_with base path type answer found).sent ≡ some r
      → IsAuthorized token r
  download_request-IsAuthorized type none e h = cc
  download_request-IsAuthorized type (some t) e h = of_headers token t _ r e h (Memᴰ.head refl)

  upload_request-IsAuthorized :
      (field uri name mime : String) (exists : Bool) (found : Option String)
      → usable (session_token token) ≡ found
      → (upload_with base path field uri name mime exists answer found).sent ≡ some r
      → IsAuthorized token r
  upload_request-IsAuthorized field uri name mime exists none e h = cc
  upload_request-IsAuthorized field uri name mime false (some t) e h = cc
  upload_request-IsAuthorized field uri name mime true (some t) e h =
      of_headers token t _ r e h (Memᴰ.head refl)

module _ (base path : String) (token : Option (Option String)) (answer : Option Response) where
  -- A request of `apiRequest` with `auth` leaves only with the session's token in its headers.
  pub api_request-IsAuthorized :
      (o : Options) (r : Request)
      → o.auth ≡ true
      → (api_request base path o token answer).sent ≡ some r
      → IsAuthorized token r
  unfolding api_request
  api_request-IsAuthorized o r auth h =
      request-IsAuthorized base path token answer r o (usable (session_token token)) refl
        (rw auth at h)

  -- So does every download and every upload.
  pub transfer-IsAuthorized :
      (type : Option String) (field uri name mime : String) (exists : Bool) (r : Request)
      → ((api_download base path token type answer).sent ≡ some r)
        ⊎ ((api_upload base path field uri name mime exists token answer).sent ≡ some r)
      → IsAuthorized token r
  unfolding api_download api_upload
  transfer-IsAuthorized type field uri name mime exists r (inl h) =
      download_request-IsAuthorized base path token answer r type (usable (session_token token))
        refl h
  transfer-IsAuthorized type field uri name mime exists r (inr h) =
      upload_request-IsAuthorized base path token answer r field uri name mime exists
        (usable (session_token token)) refl h

  -- With no usable token nothing is sent, and each operation ends in a 401.
  pub not_signed_in :
      (o : Options) (type : Option String) (field uri name mime : String) (exists : Bool)
      → o.auth ≡ true
      → usable (session_token token) ≡ none
      → (api_request base path o token answer
          ≡ record { sent = none; outcome = api_error "Not signed in" 401 })
        × (api_download base path token type answer
            ≡ record { sent = none; outcome = api_error "Not signed in" 401 })
        × (api_upload base path field uri name mime exists token answer
            ≡ record { sent = none; outcome = api_error "Not signed in" 401 })
  unfolding api_request api_download api_upload
  not_signed_in o type field uri name mime exists auth h = (rw (auth, h), rw h, rw h)

-- An answer that can end a call with a value.
abbrev pub IsGood : Option Response → Type 0
IsGood answer = (r : Response) × (answer ≡ some r) × (is_ok r.status ≡ true)

receive-IsGood :
    (auth : Bool) (answer : Option Response) (v : Option Json)
    → receive auth answer ≡ done v
    → IsGood answer
unfolding receive
receive-IsGood auth none v h = cc
receive-IsGood auth (some r) v h = (r, refl, ground arith)

-- `apiRequest` ends with a value only on an answer that is ok.
pub api_request-IsGood :
    (base path : String) (o : Options) (token : Option (Option String)) (answer : Option Response)
    (v : Option Json)
    → (api_request base path o token answer).outcome ≡ done v
    → IsGood answer
unfolding api_request
api_request-IsGood base path o token answer v h = elim (Bool-cases o.auth) [
  | inl auth ↦ elim (Option-cases (usable (session_token token))) [
    | inl e ↦ ground arith
    | inr (t, e) ↦ receive-IsGood true answer v (ground arith)
  ]
  | inr public ↦ receive-IsGood false answer v (ground arith)
]

-- An answer that is not ok comes out of each operation as an `ApiError` with the answer's status.
pub refusal_keeps_status :
    (base path : String) (token : Option (Option String)) (t : String) (r : Response) (o : Options)
    (type : Option String) (field uri name mime : String)
    → usable (session_token token) ≡ some t
    → is_ok r.status ≡ false
    → ((m : String) × ((api_request base path o token (some r)).outcome ≡ api_error m r.status))
      × ((m : String) × ((api_download base path token type (some r)).outcome
            ≡ api_error m r.status))
      × ((m : String) × ((api_upload base path field uri name mime true token (some r)).outcome
            ≡ api_error m r.status))
unfolding api_request api_download api_upload
refusal_keeps_status base path token t r o type field uri name mime h bad = (
  (
    if r.status == 401 && o.auth then expired else error_message r (failure "Request" r.status),
    ground arith,
  ),
  (
    if r.status == 401 then expired else error_message r (failure "Download" r.status),
    ground arith,
  ),
  (if r.status == 401 then expired else error_message r (failure "Upload" r.status), ground arith),
)
