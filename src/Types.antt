-- ===== src/Types.antt =====
-- The return codes of lib/pqos.h, results, and the state monad of code that touches registers.
pub mod Bind
pub mod Hoare
use multi_resource_isolation.Prelude.{◌≡◌, refl, ◌⊎◌, inl, inr, Bool, true, false}

-- The `PQOS_RETVAL_*` codes other than `PQOS_RETVAL_OK`.
pub data Retval : Type 0 where
  error param resource init transport perf_ctr busy : Retval

-- What a call hands back: `PQOS_RETVAL_OK` with its output arguments, or another code.
pub data Result (A : Type 0) : Type 0 where
  ok : A → Result A
  err : Retval → Result A

-- A call that works on a state `S`, which it leaves behind on an error too.
abbrev pub Action : Type 0 → Type 0 → Type 0
Action S A = S → Result A × S

abbrev pub pure : {S A : Type 0} → A → Action S A
pure a s = (ok a, s)

abbrev pub fail : {S A : Type 0} → Retval → Action S A
fail e s = (err e, s)

abbrev pub lift : {S A : Type 0} → Result A → Action S A
lift r s = (r, s)

infixl 5 ◌>>=◌ ◌>>◌
abbrev pub ◌>>=◌ : {S A B : Type 0} → Action S A → (A → Action S B) → Action S B
◌>>=◌ m f s = let (r, s') = m s in elim r [ ok a ↦ f a s' | err e ↦ (err e, s') ]

abbrev pub ◌>>◌ : {S B : Type 0} → Action S (Unit {0}) → Action S B → Action S B
m >> k = m >>= λ _. k

-- An early return of `e` where a test holds.
abbrev pub fail_if : {S : Type 0} → Bool → Retval → Action S (Unit {0})
fail_if true e s = (err e, s)
fail_if false e s = (ok tt, s)

pub Result-cases :
    {A : Type 0} (r : Result A) → ((a : A) × (r ≡ ok a)) ⊎ ((e : Retval) × (r ≡ err e))
Result-cases (ok a) = inl (a, refl)
Result-cases (err e) = inr (e, refl)
