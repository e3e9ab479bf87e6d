-- ===== src/Types/Hoare.antt =====
-- What holds of the state after a chain of calls that succeeds.
use multi_resource_isolation.Prelude.{◌≡◌, sym, ap, ◌∙◌, subst}
use multi_resource_isolation.Types.{ok, Action, ◌>>◌}
use multi_resource_isolation.Types.Bind.{ok_of_bind}

module _ {S : Type 0} where
  abbrev pub Holds : {A : Type 0} → (S → Type 0) → Action S A → (S → Type 0) → Type 0
  Holds {A} P x Q = (s : S) (a : A) → P s → (x s).0 ≡ ok a → Q (x s).1

  pub then-Holds :
      {B : Type 0} (P Q R : S → Type 0) (x : Action S (Unit {0})) (y : Action S B)
      → Holds P x Q
      → Holds Q y R
      → Holds P (x >> y) R
  then-Holds P Q R x y h k s b p e =
      let (a, first, on) = ok_of_bind x (λ _. y) s e in
      subst R (ap (λ t. t.1) (sym on)) (k (x s).1 b (h s a p first) (sym (ap (λ t. t.0) on) ∙ e))
