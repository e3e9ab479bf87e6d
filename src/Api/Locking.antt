-- ===== src/Api/Locking.antt =====
-- Any sequence of the calls of Api.Calls uses the lock in pairs, and enters an interface only in between.
use multi_resource_isolation.Prelude.{◌≡◌, refl, sym, subst, ◌∙◌, Bool, true, false, List, [], ◌∷◌}
use multi_resource_isolation.Types.{Result, ok, err, Action}
use multi_resource_isolation.Cap.{Interface}
use multi_resource_isolation.Api.{Backends, Library, Event, locked, entered, unlocked}
use multi_resource_isolation.Api.Calls.{Call, perform}
use multi_resource_isolation.Api.Atomic.{
  bad_arguments, work, step, unless, atomic, perform-atomic, library,
}

-- Latest first: each call took the lock, entered an interface once or not at all, dropped the lock.
pub data Paired : List Event → Type 0 where
  none_yet : Paired []
  skipped : (es : List Event) → Paired es → Paired (unlocked ∷ locked ∷ es)
  served : (es : List Event) → Paired es → Paired (unlocked ∷ entered ∷ locked ∷ es)

module _ {S : Type 0} (b : Backends S) where
  -- What a sequence of calls, of any threads in any order, makes of a library.
  pub data Reach (l : Library S) : Library S → Type 0 where
    here : Reach l l
    next : (k : Library S) (c : Call) → Reach l k → Reach l (perform b c k).1

  -- What one call keeps: the pairs, and the library's interface and initialisation; without the
  -- initialisation, also the state behind the interface.
  abbrev pub Kept : Library S → Library S → Type 0
  Kept l k =
      Paired k.events
      × (k.init_done ≡ l.init_done)
      × (k.interface ≡ l.interface)
      × (l.init_done ≡ false → k.state ≡ l.state)

  step-Kept :
      (w : Result (Action S (Unit {0}))) (done : Bool) (i : Interface) (es : List Event) (st : S)
      → Paired es
      → Kept (library done i es st) (step w (library done i es st)).1
  step-Kept w false i es st paired = (skipped es paired, refl, refl, λ e. refl)
  step-Kept (err x) true i es st paired = (skipped es paired, refl, refl, λ e. refl)
  step-Kept (ok op) true i es st paired = (served es paired, refl, refl, λ e. cc)

  unless-Kept :
      (bad : Bool) (w : Result (Action S (Unit {0}))) (l : Library S)
      → Paired l.events
      → Kept l (unless bad w l).1
  unless-Kept true w l paired = (paired, refl, refl, λ e. refl)
  unless-Kept false w l paired = step-Kept w l.init_done l.interface l.events l.state paired

  -- After any sequence of calls on associations, classes, tables and resets that return a code, which
  -- begins with the lock free, each call has taken and dropped the lock once or left it alone, an
  -- interface was entered only with the lock held, once at most for each, the interface and the
  -- initialisation are as they were, and a library that is not initialised has not changed what lies
  -- behind its interface.
  pub Reach-Kept : (l k : Library S) → Paired l.events → Reach l k → Kept l k
  Reach-Kept l k paired here = (paired, refl, refl, λ e. refl)
  Reach-Kept l k paired (next j c r) =
      let (pairs, done, face, idle) = Reach-Kept l j paired r in
      let (pairs', done', face', idle') =
        unless-Kept (bad_arguments c) (work b j.interface c) j pairs in
      let same : perform b c j ≡ atomic b c j = perform-atomic b c j in
      subst (λ t. Kept l t.1) (sym same)
        (pairs', done' ∙ done, face' ∙ face, λ e. idle' (done ∙ e) ∙ idle e)
