-- ===== src/Msr/Keeps.antt =====
-- Calls that leave a register as it is, on every core and whatever they return.
use multi_resource_isolation.Prelude.{
  ℕ, ◌≡◌, ◌≢◌, refl, sym, ap, ◌∙◌, Bool, true, false, [], ◌∷◌, inl, inr, All,
}
use multi_resource_isolation.Types.{Retval, Action, fail_if, ◌>>=◌, Result-cases}
use multi_resource_isolation.Types.Bind.{bind_of_ok, bind_of_err}
use multi_resource_isolation.Msr.{Msr, Registers, read_msr, write_msr}
use multi_resource_isolation.Msr.Writes.{Writes, write_all}

module _ {m : Msr} (g : Registers m) (reg : ℕ) where
  abbrev pub Keeps : {A : Type 0} → Action m.State A → Type 0
  Keeps x = (s : m.State) (c : ℕ) → g.peek (x s).1 c reg ≡ g.peek s c reg

module _ {m : Msr} (g : Registers m) {reg : ℕ} where
  pub bind-Keeps :
      {A B : Type 0} (x : Action m.State A) (f : A → Action m.State B)
      → Keeps g reg x
      → ((a : A) → Keeps g reg (f a))
      → Keeps g reg (x >>= f)
  bind-Keeps x f h k s c = elim (Result-cases (x s).0) [
    | inl (a, e) ↦ ap (λ t. g.peek t.1 c reg) (bind_of_ok x f s e) ∙ k a (x s).1 c ∙ h s c
    | inr (r, e) ↦ ap (λ t. g.peek t.1 c reg) (bind_of_err x f s e) ∙ h s c
  ]

  pub fail_if-Keeps : (b : Bool) (r : Retval) → Keeps g reg (fail_if b r)
  fail_if-Keeps true r s c = refl
  fail_if-Keeps false r s c = refl

  pub read_msr-Keeps : (core r : ℕ) → Keeps g reg (read_msr m core r)
  read_msr-Keeps core r s c = g.read_keeps core r s c reg

  pub write_msr-Keeps : (core r v : ℕ) → r ≢ reg → Keeps g reg (write_msr m core r v)
  write_msr-Keeps core r v ne s c = g.write_others core r v s c reg (λ e. ne (sym e))

  pub write_all-Keeps :
      (core : ℕ) (ws : Writes) → All (λ w. w.0 ≢ reg) ws → Keeps g reg (write_all m core ws)
  unfolding write_all
  write_all-Keeps core [] h = λ s c. refl
  write_all-Keeps core ((r, v) ∷ ws) h =
      bind-Keeps (write_msr m core r v) (λ _. write_all m core ws) (write_msr-Keeps core r v h.0)
        (λ _. write_all-Keeps core ws h.1)
