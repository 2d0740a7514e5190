-- ===== src/Mobile/Task/Alike.antt =====
-- Two runs of one handler from different screens.
use kall.Common.{◌≡◌, refl, List, [], ◌∷◌, ◌++◌}
use mathlib.Core.Path.{ap, subst}
use kall.Mobile.Task.{
  Failure, Result, ok, failed, Task, give, throw, update, read, call, ◌>>=◌, catch, finally, Server,
  End, run,
}

-- The two runs end with screens that are alike, the same value and the same requests.
abbrev pub EndsAlike : {S Req A : Type 0} → (S → S → Type 0) → End S Req A → End S Req A → Type 0
EndsAlike R e e' = R e.screen e'.screen × (e.value ≡ e'.value) × (e.sent ≡ e'.sent)

module _ {S Req : Type 0} {Resp : Req → Type 0} (R : S → S → Type 0) where
  -- Every state setter of a handler keeps two screens alike, and it reads nothing in which they differ.
  abbrev pub Alike : {A : Type 0} → Task S Req Resp A → Type 0
  Alike (give a) = Unit
  Alike (throw e) = Unit
  Alike (update g t) = ((s s' : S) → R s s' → R (g s) (g s')) × Alike t
  Alike (read k) = (s s' : S) → R s s' → (k s ≡ k s') × Alike (k s)
  Alike (call r k) = ((a : Resp r) → Alike (k (ok a))) × ((e : Failure) → Alike (k (failed e)))

  answered-Alike :
      {A : Type 0} (r : Req) (k : Result (Resp r) → Task S Req Resp A)
      → Alike (call r k)
      → (x : Result (Resp r)) → Alike (k x)
  answered-Alike r k (h, h') (ok a) = h a
  answered-Alike r k (h, h') (failed e) = h' e

  pub Alike-bind :
      {A B : Type 0} (t : Task S Req Resp A) (f : A → Task S Req Resp B)
      → Alike t
      → ((a : A) → Alike (f a))
      → Alike (t >>= f)
  unfolding ◌>>=◌
  Alike-bind (give a) f h k = k a
  Alike-bind (throw e) f h k = tt
  Alike-bind (update g t) f (h, hs) k = (h, Alike-bind t f hs k)
  Alike-bind (read c) f h k =
      λ s s' p. let (same, rest) = h s s' p in (ap (λ t. t >>= f) same, Alike-bind (c s) f rest k)
  Alike-bind (call r c) f (h, h') k =
      ((λ a. Alike-bind (c (ok a)) f (h a) k), (λ e. Alike-bind (c (failed e)) f (h' e) k))

  pub Alike-catch :
      {A : Type 0} (t : Task S Req Resp A) (handler : Failure → Task S Req Resp A)
      → Alike t
      → ((e : Failure) → Alike (handler e))
      → Alike (catch t handler)
  unfolding catch
  Alike-catch (give a) f h k = tt
  Alike-catch (throw e) f h k = k e
  Alike-catch (update g t) f (h, hs) k = (h, Alike-catch t f hs k)
  Alike-catch (read c) f h k = λ s s' p.
      let (same, rest) = h s s' p in (ap (λ t. catch t f) same, Alike-catch (c s) f rest k)
  Alike-catch (call r c) f (h, h') k =
      ((λ a. Alike-catch (c (ok a)) f (h a) k), (λ e. Alike-catch (c (failed e)) f (h' e) k))

  pub Alike-finally :
      {A : Type 0} (t : Task S Req Resp A) (last : S → S)
      → Alike t
      → ((s s' : S) → R s s' → R (last s) (last s'))
      → Alike (finally t last)
  unfolding finally
  Alike-finally (give a) f h k = (k, tt)
  Alike-finally (throw e) f h k = (k, tt)
  Alike-finally (update g t) f (h, hs) k = (h, Alike-finally t f hs k)
  Alike-finally (read c) f h k = λ s s' p.
      let (same, rest) = h s s' p in (ap (λ t. finally t f) same, Alike-finally (c s) f rest k)
  Alike-finally (call r c) f (h, h') k =
      ((λ a. Alike-finally (c (ok a)) f (h a) k), (λ e. Alike-finally (c (failed e)) f (h' e) k))

  pub run-Alike :
      {A : Type 0} (server : Server Req Resp) (t : Task S Req Resp A) (s s' : S) (sent : List Req)
      → Alike t
      → R s s'
      → EndsAlike R (run server t s sent) (run server t s' sent)
  unfolding run
  run-Alike server (give a) s s' sent h p = (p, refl, refl)
  run-Alike server (throw e) s s' sent h p = (p, refl, refl)
  run-Alike server (update g t) s s' sent (h, hs) p =
      run-Alike server t (g s) (g s') sent hs (h s s' p)
  run-Alike server (read k) s s' sent h p =
      let (same, rest) = h s s' p in
      subst (λ t. EndsAlike R (run server (k s) s sent) (run server t s' sent)) same
        (run-Alike server (k s) s s' sent rest p)
  run-Alike server (call r k) s s' sent h p =
      run-Alike server (k (server sent r)) s s' (sent ++ r ∷ [])
        (answered-Alike r k h (server sent r)) p
