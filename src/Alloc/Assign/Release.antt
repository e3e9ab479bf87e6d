-- ===== src/Alloc/Assign/Release.antt =====
-- `hw_alloc_release`: the cores of an array go back to class 0.
use multi_resource_isolation.Prelude.{
  ℕ, ◌≡◌, refl, sym, ap, ◌∙◌, arith, if◌then◌else◌, List, [], ◌∷◌, inl, inr,
}
use multi_resource_isolation.Types.{Result, ok, err, Retval, Result-cases}
use multi_resource_isolation.Msr.{Msr, Registers, msr_assoc}
use multi_resource_isolation.Cpu.{listed}
use multi_resource_isolation.Alloc.Assoc.{cos_assoc_set}
use multi_resource_isolation.Alloc.Assoc.Field.{class_in, rmid_half, PerCore, cos_assoc_set_lem}
use multi_resource_isolation.Alloc.Assign.{after, release_all, hw_alloc_release}

module _ (m : Msr) (g : Registers m) (own : PerCore g) where
  -- A failure is not forgotten.
  never_ok :
      (cores : List ℕ) (r : Retval) (s : m.State) → (release_all m cores (err r) s).0 ≡ ok tt → ⊥
  unfolding release_all
  never_ok [] r s e = cc
  never_ok (lcore ∷ cores) r s e =
      let one = cos_assoc_set m lcore 0 s in
      let rest = λ (x : Result (Unit {0})). (release_all m cores (after (err r) x) one.1).0 in
      elim (Result-cases one.0) [
        | inl (u, q) ↦ never_ok cores r one.1 (sym (ap rest q) ∙ e)
        | inr (q, f) ↦ never_ok cores Retval.error one.1 (sym (ap rest f) ∙ e)
      ]

  first_ok :
      (lcore : ℕ) (cores : List ℕ) (s : m.State)
      → (release_all m (lcore ∷ cores) (ok tt) s).0 ≡ ok tt
      → let one = cos_assoc_set m lcore 0 s in
        (one.0 ≡ ok tt)
        × (release_all m (lcore ∷ cores) (ok tt) s ≡ release_all m cores (ok tt) one.1)
  unfolding release_all
  first_ok lcore cores s e =
      let one = cos_assoc_set m lcore 0 s in
      let rest = λ (x : Result (Unit {0})). release_all m cores (after (ok tt) x) one.1 in
      elim (Result-cases one.0) [
        | inl (u, q) ↦ (q, ap rest q)
        | inr (r, f) ↦
            absurd (never_ok cores Retval.error one.1 (ap (λ t. t.0) (sym (ap rest f)) ∙ e))
      ]

  pub release_all_lem :
      (cores : List ℕ) (s : m.State) (c : ℕ)
      → (release_all m cores (ok tt) s).0 ≡ ok tt
      → let s' = (release_all m cores (ok tt) s).1 in
        (class_in g s' c ≡ (if listed c cores then 0 else class_in g s c))
        × (rmid_half (g.peek s' c msr_assoc) ≡ rmid_half (g.peek s c msr_assoc))
  unfolding listed release_all
  release_all_lem [] s c e = (refl, refl)
  release_all_lem (lcore ∷ cores) s c e =
      let (done, on) = first_ok lcore cores s e in
      let s' = (cos_assoc_set m lcore 0 s).1 in
      let (class, rmid) = cos_assoc_set_lem m g lcore 0 s c own (omega arith) done in
      let (later, rmids) = release_all_lem cores s' c (ap (λ t. t.0) (sym on) ∙ e) in
      (
        ap (λ t. class_in g t.1 c) on ∙ later ∙ ground (arith, class),
        ap (λ t. rmid_half (g.peek t.1 c msr_assoc)) on ∙ rmids ∙ rmid,
      )

  -- A success of `hw_alloc_release` means that every core of the array is back in class 0; the
  -- other cores keep their class, and every core its RMID.
  hw_alloc_release_lem :
      (cores : List ℕ) (s : m.State) (c : ℕ)
      → (hw_alloc_release m cores s).0 ≡ ok tt
      → let s' = (hw_alloc_release m cores s).1 in
        (class_in g s' c ≡ (if listed c cores then 0 else class_in g s c))
        × (rmid_half (g.peek s' c msr_assoc) ≡ rmid_half (g.peek s c msr_assoc))
  unfolding hw_alloc_release
  hw_alloc_release_lem cores s c e = release_all_lem cores s c e
