-- ===== src/Types/Bind.antt =====
-- Chains of calls, taken apart at a call that succeeded.
use multi_resource_isolation.Prelude.{◌≡◌, refl, sym, ap, ◌∙◌, Bool, true, false}
use multi_resource_isolation.Types.{Retval, Result, ok, err, Action, ◌>>=◌, fail_if}

module _ {S A B : Type 0} where
  -- The case on a result inside `◌>>=◌`.
  abbrev continue : (A → Action S B) → Result A → S → Result B × S
  continue f r s = elim r [ ok a ↦ f a s | err e ↦ (err e, s) ]

  continue_ok :
      (f : A → Action S B) (r : Result A) (s : S) {b : B}
      → (continue f r s).0 ≡ ok b
      → (a : A) × (r ≡ ok a)
  continue_ok f (ok a) s h = (a, refl)
  continue_ok f (err e) s h = cc

  -- A chain goes on from a call that succeeds.
  pub bind_of_ok :
      (x : Action S A) (f : A → Action S B) (s : S) {a : A}
      → (x s).0 ≡ ok a
      → (x >>= f) s ≡ f a (x s).1
  bind_of_ok x f s e = ap (λ r. continue f r (x s).1) e

  -- A chain stops at a call that fails.
  pub bind_of_err :
      (x : Action S A) (f : A → Action S B) (s : S) {r : Retval}
      → (x s).0 ≡ err r
      → (x >>= f) s ≡ (let t : Result B × S = (err r, (x s).1) in t)
  bind_of_err x f s e = ap (λ r. continue f r (x s).1) e

  -- A chain that succeeds has gone on from a call that succeeded.
  pub ok_of_bind :
      (x : Action S A) (f : A → Action S B) (s : S) {b : B}
      → ((x >>= f) s).0 ≡ ok b
      → (a : A) × ((x s).0 ≡ ok a) × ((x >>= f) s ≡ f a (x s).1)
  ok_of_bind x f s h = let (a, e) = continue_ok f (x s).0 (x s).1 h in (a, e, bind_of_ok x f s e)

  pub ok_next :
      (x : Action S A) (f : A → Action S B) (s : S) {b : B}
      → ((x >>= f) s).0 ≡ ok b
      → (a : A) × ((x s).0 ≡ ok a) × ((f a (x s).1).0 ≡ ok b)
  ok_next x f s h = let (a, e, q) = ok_of_bind x f s h in (a, e, sym (ap (λ r. r.0) q) ∙ h)

module _ {S A : Type 0} where
  returned :
      (r : Result A) (s : S)
      → (elim r [ ok a ↦ (ok a, s) | err e ↦ (err e, s) ]) ≡ (let t : Result A × S = (r, s) in t)
  returned (ok a) s = refl
  returned (err e) s = refl

  -- To return what a call returned changes nothing.
  pub bind_pure : (x : Action S A) (s : S) → (x >>= λ a. λ t. (ok a, t)) s ≡ x s
  bind_pure x s = returned (x s).0 (x s).1

pub ok_same : {A : Type 0} {a b : A} → ok a ≡ ok b → a ≡ b
ok_same e = cc

-- A guard that let the chain go on.
pub past_guard :
    {S B : Type 0} (test : Bool) (r : Retval) (f : Unit {0} → Action S B) (s : S) {b : B}
    → ((fail_if test r >>= f) s).0 ≡ ok b
    → (test ≡ false) × ((f tt s).0 ≡ ok b)
past_guard true r f s h = cc
past_guard false r f s h = (refl, h)

pub open_guard :
    {S B : Type 0} (test : Bool) (r : Retval) (f : Unit {0} → Action S B) (s : S)
    → test ≡ false
    → (fail_if test r >>= f) s ≡ f tt s
open_guard true r f s h = cc
open_guard false r f s h = refl
