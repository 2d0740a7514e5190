-- ===== src/Mobile/Task/Keeps.antt =====
-- What holds of a screen however the answers to its handlers interleave, and how the run of a composed
-- handler is that of its parts.
use kall.Common.{ℕ, zero, suc, List, [], ◌∷◌, ◌++◌, All, All-append}
use kall.Mobile.Task.{
  Failure, Result, ok, failed, Task, give, throw, update, read, call, ◌>>=◌, catch, finally, Server,
  run, advance, World, Event, starts, answers, deliver, step, play,
}

module _ {S Req : Type 0} {Resp : Req → Type 0} (P : S → Type 0) where
  -- Every state setter of a handler keeps `P`, whatever is answered to it.
  abbrev pub Keeps : {A : Type 0} → Task S Req Resp A → Type 0
  Keeps (give a) = Unit
  Keeps (throw e) = Unit
  Keeps (update g t) = ((s : S) → P s → P (g s)) × Keeps t
  Keeps (read k) = (s : S) → P s → Keeps (k s)
  Keeps (call r k) = ((a : Resp r) → Keeps (k (ok a))) × ((e : Failure) → Keeps (k (failed e)))

  pub Keeps-bind :
      {A B : Type 0} (t : Task S Req Resp A) (f : A → Task S Req Resp B)
      → Keeps t
      → ((a : A) → Keeps (f a))
      → Keeps (t >>= f)
  unfolding ◌>>=◌
  Keeps-bind (give a) f h k = k a
  Keeps-bind (throw e) f h k = tt
  Keeps-bind (update g t) f (h, hs) k = (h, Keeps-bind t f hs k)
  Keeps-bind (read c) f h k = λ s p. Keeps-bind (c s) f (h s p) k
  Keeps-bind (call r c) f (h, h') k =
      ((λ a. Keeps-bind (c (ok a)) f (h a) k), (λ e. Keeps-bind (c (failed e)) f (h' e) k))

  pub Keeps-catch :
      {A : Type 0} (t : Task S Req Resp A) (handler : Failure → Task S Req Resp A)
      → Keeps t
      → ((e : Failure) → Keeps (handler e))
      → Keeps (catch t handler)
  unfolding catch
  Keeps-catch (give a) f h k = tt
  Keeps-catch (throw e) f h k = k e
  Keeps-catch (update g t) f (h, hs) k = (h, Keeps-catch t f hs k)
  Keeps-catch (read c) f h k = λ s p. Keeps-catch (c s) f (h s p) k
  Keeps-catch (call r c) f (h, h') k =
      ((λ a. Keeps-catch (c (ok a)) f (h a) k), (λ e. Keeps-catch (c (failed e)) f (h' e) k))

  pub Keeps-finally :
      {A : Type 0} (t : Task S Req Resp A) (last : S → S)
      → Keeps t
      → ((s : S) → P s → P (last s))
      → Keeps (finally t last)
  unfolding finally
  Keeps-finally (give a) f h k = (k, tt)
  Keeps-finally (throw e) f h k = (k, tt)
  Keeps-finally (update g t) f (h, hs) k = (h, Keeps-finally t f hs k)
  Keeps-finally (read c) f h k = λ s p. Keeps-finally (c s) f (h s p) k
  Keeps-finally (call r c) f (h, h') k =
      ((λ a. Keeps-finally (c (ok a)) f (h a) k), (λ e. Keeps-finally (c (failed e)) f (h' e) k))

  answered-Keeps :
      {A : Type 0} (r : Req) (k : Result (Resp r) → Task S Req Resp A)
      → Keeps (call r k)
      → (x : Result (Resp r)) → Keeps (k x)
  answered-Keeps r k (h, h') (ok a) = h a
  answered-Keeps r k (h, h') (failed e) = h' e

  pub run-Keeps :
      {A : Type 0} (server : Server Req Resp) (t : Task S Req Resp A) (s : S) (sent : List Req)
      → Keeps t
      → P s
      → P (run server t s sent).screen
  unfolding run
  run-Keeps server (give a) s sent h p = p
  run-Keeps server (throw e) s sent h p = p
  run-Keeps server (update g t) s sent (h, hs) p = run-Keeps server t (g s) sent hs (h s p)
  run-Keeps server (read k) s sent h p = run-Keeps server (k s) s sent (h s p) p
  run-Keeps server (call r k) s sent h p =
      run-Keeps server (k (server sent r)) s (sent ++ r ∷ []) (answered-Keeps r k h (server sent r))
        p

  advance-Keeps :
      {A : Type 0} (t : Task S Req Resp A) (s : S)
      → Keeps t
      → P s
      → P (advance t s).0 × Keeps (advance t s).1
  unfolding advance
  advance-Keeps (give a) s h p = (p, h)
  advance-Keeps (throw e) s h p = (p, h)
  advance-Keeps (update g t) s (h, hs) p = advance-Keeps t (g s) hs (h s p)
  advance-Keeps (read k) s h p = advance-Keeps (k s) s (h s p) p
  advance-Keeps (call r k) s h p = (p, h)

  -- A screen with `P`, on which only handlers that keep it wait.
  abbrev pub Holds : World S Req Resp → Type 0
  Holds w = P w.screen × All (λ t. Keeps t) w.waiting

  deliver-Holds :
      (answer : (r : Req) → Result (Resp r)) (n : ℕ) (ts : List (Task S Req Resp Unit)) (s : S)
      → All (λ t. Keeps t) ts
      → P s
      → Holds (deliver answer n ts s)
  unfolding deliver
  deliver-Holds answer n [] s h p = (p, tt)
  deliver-Holds answer zero (give a ∷ ts) s (h, hs) p = (p, (h, hs))
  deliver-Holds answer zero (throw e ∷ ts) s (h, hs) p = (p, (h, hs))
  deliver-Holds answer zero (update g t ∷ ts) s (h, hs) p =
      let (q, k) = advance-Keeps (update g t) s h p in (q, (k, hs))
  deliver-Holds answer zero (read c ∷ ts) s (h, hs) p =
      let (q, k) = advance-Keeps (read c) s h p in (q, (k, hs))
  deliver-Holds answer zero (call r c ∷ ts) s (h, hs) p =
      let (q, k) = advance-Keeps (c (answer r)) s (answered-Keeps r c h (answer r)) p in
      (q, (k, hs))
  deliver-Holds answer (suc n) (t ∷ ts) s (h, hs) p =
      let (q, ks) = deliver-Holds answer n ts s hs p in (q, (h, ks))

  -- Every handler that these events start keeps `P`.
  abbrev pub StartsKeep : List (Event S Req Resp) → Type 0
  StartsKeep [] = Unit
  StartsKeep (starts t ∷ es) = Keeps t × StartsKeep es
  StartsKeep (answers n answer ∷ es) = StartsKeep es

  -- However handlers that keep `P` start and their requests are answered, the screen keeps it.
  pub play-Holds :
      (es : List (Event S Req Resp)) (w : World S Req Resp)
      → StartsKeep es
      → Holds w
      → Holds (play es w)
  unfolding play
  play-Holds [] w h p = p
  play-Holds (starts t ∷ es) w (h, hs) (p, ps) =
      let (q, k) = advance-Keeps t w.screen h p in play-Holds es (step (starts t) w) hs (q, (k, ps))
  play-Holds (answers n answer ∷ es) w h (p, ps) =
      play-Holds es (step (answers n answer) w) h (deliver-Holds answer n w.waiting w.screen ps p)

module _ {S Req : Type 0} {Resp : Req → Type 0} (Q : Req → Type 0) where
  -- Every request that a handler may send is in `Q`.
  abbrev pub Sends : {A : Type 0} → Task S Req Resp A → Type 0
  Sends (give a) = Unit
  Sends (throw e) = Unit
  Sends (update g t) = Sends t
  Sends (read k) = (s : S) → Sends (k s)
  Sends (call r k) =
      Q r × ((a : Resp r) → Sends (k (ok a))) × ((e : Failure) → Sends (k (failed e)))

  answered-Sends :
      {A : Type 0} (r : Req) (k : Result (Resp r) → Task S Req Resp A)
      → Sends (call r k)
      → (x : Result (Resp r)) → Sends (k x)
  answered-Sends r k (q, h, h') (ok a) = h a
  answered-Sends r k (q, h, h') (failed e) = h' e

  pub run-Sends :
      {A : Type 0} (server : Server Req Resp) (t : Task S Req Resp A) (s : S) (sent : List Req)
      → Sends t
      → All Q sent
      → All Q (run server t s sent).sent
  unfolding run
  run-Sends server (give a) s sent h p = p
  run-Sends server (throw e) s sent h p = p
  run-Sends server (update g t) s sent h p = run-Sends server t (g s) sent h p
  run-Sends server (read k) s sent h p = run-Sends server (k s) s sent (h s) p
  run-Sends server (call r k) s sent h p =
      run-Sends server (k (server sent r)) s (sent ++ r ∷ []) (answered-Sends r k h (server sent r))
        (All-append Q sent (r ∷ []) p (h.0, tt))
