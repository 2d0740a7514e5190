-- ===== src/Mobile/Task.antt =====
-- The asynchronous handlers of the phone's screens (apps/mobile/src/screens): a call of an API function
-- waits for its answer, a state setter changes the screen, a throw is caught or ends the handler. A
-- handler is a tree of these, so that its awaits are visible and other handlers can run between them.
pub mod Keeps
pub mod Runs
pub mod Alike
use kall.Common.{ℕ, zero, suc, String, List, [], ◌∷◌, ◌++◌}
use kall.Mobile.Client.{Outcome, done, api_error, network_error, syntax_error}

-- What a handler catches: an `ApiError`, another `Error`, each with its message, or a value that is
-- no `Error`.
pub data Failure : Type 0 where
  api other : (message : String) → Failure
  not_an_error : Failure

pub data Result (A : Type 0) : Type 0 where
  ok : A → Result A
  failed : Failure → Result A

-- The end of a call of the API client, with the platform's messages for its two other errors.
unfoldable pub result_of : {A : Type 0} → (network syntax : String) → Outcome A → Result A
result_of network syntax (done a) = ok a
result_of network syntax (api_error message status) = failed (api message)
result_of network syntax network_error = failed (other network)
result_of network syntax syntax_error = failed (other syntax)

-- `error instanceof ApiError ? error.message : fallback`
unfoldable pub api_message : String → Failure → String
api_message fallback (api message) = message
api_message fallback _ = fallback

-- `error instanceof ApiError || error instanceof Error ? error.message : fallback`
unfoldable pub error_message : String → Failure → String
error_message fallback (api message) = message
error_message fallback (other message) = message
error_message fallback not_an_error = fallback

-- A handler over a screen `S` and requests `Req`, whose answers are in `Resp`. It reads the screen where
-- the source reads a ref, or a variable that a cleanup sets; what a handler captures is its argument.
pub data Task (S Req : Type 0) (Resp : Req → Type 0) (A : Type 0) : Type 0 where
  give : A → Task S Req Resp A
  throw : Failure → Task S Req Resp A
  update : (S → S) → Task S Req Resp A → Task S Req Resp A
  read : (S → Task S Req Resp A) → Task S Req Resp A
  call : (r : Req) → (Result (Resp r) → Task S Req Resp A) → Task S Req Resp A

module _ {S Req : Type 0} {Resp : Req → Type 0} where
  -- A state setter.
  abbrev pub set : (S → S) → Task S Req Resp Unit
  set g = update g (give tt)

  abbrev pub returned : {A : Type 0} → Result A → Task S Req Resp A
  returned (ok a) = give a
  returned (failed e) = throw e

  -- `await` of an API call.
  abbrev pub await : (r : Req) → Task S Req Resp (Resp r)
  await r = call r (λ x. returned x)

  infixl 5 ◌>>=◌ ◌>>◌
  unfoldable pub ◌>>=◌ :
      {A B : Type 0} → Task S Req Resp A → (A → Task S Req Resp B) → Task S Req Resp B
  give a >>= f = f a
  throw e >>= f = throw e
  update g t >>= f = update g (t >>= f)
  read k >>= f = read (λ s. k s >>= f)
  call r k >>= f = call r (λ x. k x >>= f)

  abbrev pub ◌>>◌ : {A B : Type 0} → Task S Req Resp A → Task S Req Resp B → Task S Req Resp B
  t >> u = t >>= (λ _. u)

  -- `try … catch (error)`
  unfoldable pub catch :
      {A : Type 0} → Task S Req Resp A → (Failure → Task S Req Resp A) → Task S Req Resp A
  catch (give a) handler = give a
  catch (throw e) handler = handler e
  catch (update g t) handler = update g (catch t handler)
  catch (read k) handler = read (λ s. catch (k s) handler)
  catch (call r k) handler = call r (λ x. catch (k x) handler)

  -- `try … finally`, whose last block sets state.
  unfoldable pub finally : {A : Type 0} → Task S Req Resp A → (S → S) → Task S Req Resp A
  finally (give a) last = update last (give a)
  finally (throw e) last = update last (throw e)
  finally (update g t) last = update g (finally t last)
  finally (read k) last = read (λ s. finally (k s) last)
  finally (call r k) last = call r (λ x. finally (k x) last)

-- A server: its answer to a request, given those that it has had.
abbrev pub Server : (Req : Type 0) → (Req → Type 0) → Type 0
Server Req Resp = (earlier : List Req) → (r : Req) → Result (Resp r)

-- The end of a handler that nothing interrupts: its value, the screen, and all requests sent.
pub record End (S Req A : Type 0) : Type 0 where
  pub value : Result A
  pub screen : S
  pub sent : List Req

-- The screen and the handlers that wait on it.
pub record World (S Req : Type 0) (Resp : Req → Type 0) : Type 0 where
  pub screen : S
  pub waiting : List (Task S Req Resp Unit)

-- What happens to a screen: a handler starts, or the request of the n-th waiting handler is answered.
pub data Event (S Req : Type 0) (Resp : Req → Type 0) : Type 0 where
  starts : Task S Req Resp Unit → Event S Req Resp
  answers : ℕ → ((r : Req) → Result (Resp r)) → Event S Req Resp

module _ {S Req : Type 0} {Resp : Req → Type 0} where
  unfoldable pub run :
      {A : Type 0} → Server Req Resp → Task S Req Resp A → S → List Req → End S Req A
  run server (give a) s sent = record { value = ok a; screen = s; sent = sent }
  run server (throw e) s sent = record { value = failed e; screen = s; sent = sent }
  run server (update g t) s sent = run server t (g s) sent
  run server (read k) s sent = run server (k s) s sent
  run server (call r k) s sent = run server (k (server sent r)) s (sent ++ r ∷ [])

  -- A handler up to its next await, with what it set on the way.
  unfoldable pub advance : {A : Type 0} → Task S Req Resp A → S → S × Task S Req Resp A
  advance (update g t) s = advance t (g s)
  advance (read k) s = advance (k s) s
  advance t s = (s, t)

  abbrev resumed : ((r : Req) → Result (Resp r)) → Task S Req Resp Unit → Task S Req Resp Unit
  resumed answer (call r k) = k (answer r)
  resumed answer t = t

  abbrev put_first : Task S Req Resp Unit → World S Req Resp → World S Req Resp
  put_first t w = record w { waiting = t ∷ w.waiting }

  unfoldable pub deliver :
      ((r : Req) → Result (Resp r)) → ℕ → List (Task S Req Resp Unit) → S → World S Req Resp
  unfolding advance
  deliver answer n [] s = record { screen = s; waiting = [] }
  deliver answer zero (t ∷ ts) s =
      let (s', next) = advance (resumed answer t) s in record { screen = s'; waiting = next ∷ ts }
  deliver answer (suc n) (t ∷ ts) s = put_first t (deliver answer n ts s)

  unfoldable pub step : Event S Req Resp → World S Req Resp → World S Req Resp
  unfolding deliver advance
  step (starts t) w =
      let (s', next) = advance t w.screen in record { screen = s'; waiting = next ∷ w.waiting }
  step (answers n answer) w = deliver answer n w.waiting w.screen

  unfoldable pub play : List (Event S Req Resp) → World S Req Resp → World S Req Resp
  unfolding step
  play [] w = w
  play (e ∷ es) w = play es (step e w)
