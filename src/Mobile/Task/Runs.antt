-- ===== src/Mobile/Task/Runs.antt =====
-- How the run of a composed handler is that of its parts.
use kall.Common.{◌≡◌, refl, List, [], ◌∷◌, ◌++◌}
use kall.Mobile.Task.{
  Failure, Result, ok, failed, Task, give, throw, update, read, call, ◌>>=◌, catch, finally, Server,
  End, run,
}

module _ {S Req : Type 0} {Resp : Req → Type 0} (server : Server Req Resp) where
  abbrev pub continued :
      {A B : Type 0} → (A → Task S Req Resp B) → Result A → S → List Req → End S Req B
  continued f (ok a) s sent = run server (f a) s sent
  continued f (failed e) s sent = record { value = failed e; screen = s; sent = sent }

  abbrev pub caught :
      {A : Type 0} → (Failure → Task S Req Resp A) → Result A → S → List Req → End S Req A
  caught f (ok a) s sent = record { value = ok a; screen = s; sent = sent }
  caught f (failed e) s sent = run server (f e) s sent

  pub run-bind :
      {A B : Type 0} (t : Task S Req Resp A) (f : A → Task S Req Resp B) (s : S) (sent : List Req)
      → run server (t >>= f) s sent
        ≡ (let e = run server t s sent in continued f e.value e.screen e.sent)
  unfolding run ◌>>=◌
  run-bind (give a) f s sent = refl
  run-bind (throw e) f s sent = refl
  run-bind (update g t) f s sent = run-bind t f (g s) sent
  run-bind (read k) f s sent = run-bind (k s) f s sent
  run-bind (call r k) f s sent = run-bind (k (server sent r)) f s (sent ++ r ∷ [])

  pub run-catch :
      {A : Type 0} (t : Task S Req Resp A) (f : Failure → Task S Req Resp A) (s : S)
      (sent : List Req)
      → run server (catch t f) s sent
        ≡ (let e = run server t s sent in caught f e.value e.screen e.sent)
  unfolding run catch
  run-catch (give a) f s sent = refl
  run-catch (throw e) f s sent = refl
  run-catch (update g t) f s sent = run-catch t f (g s) sent
  run-catch (read k) f s sent = run-catch (k s) f s sent
  run-catch (call r k) f s sent = run-catch (k (server sent r)) f s (sent ++ r ∷ [])

  pub run-finally :
      {A : Type 0} (t : Task S Req Resp A) (last : S → S) (s : S) (sent : List Req)
      → run server (finally t last) s sent
        ≡ (let e = run server t s sent in record e { screen = last e.screen })
  unfolding run finally
  run-finally (give a) f s sent = refl
  run-finally (throw e) f s sent = refl
  run-finally (update g t) f s sent = run-finally t f (g s) sent
  run-finally (read k) last s sent = run-finally (k s) last s sent
  run-finally (call r k) f s sent = run-finally (k (server sent r)) f s (sent ++ r ∷ [])
