-- ===== src/Alloc/Assoc/RoundTrip.antt =====
-- `hw_alloc_assoc_set` followed by `hw_alloc_assoc_get`.
use multi_resource_isolation.Prelude.{
  ℕ, ◌^◌, ◌<◌, ◌≡◌, refl, ap, ◌∙◌, Bool, true, ◌&&◌, leb, arith, ◌==◌, if◌then◌else◌, ◌⊎◌, eq→==,
}
use multi_resource_isolation.Types.{ok, err, Retval}
use multi_resource_isolation.Msr.{Msr, Registers, Accepts, msr_assoc}
use multi_resource_isolation.Cpu.{check_core}
use multi_resource_isolation.Cap.{
  l3ca_type, l2ca_type, get_type, l3ca_get_cos_num, l2ca_get_cos_num,
}
use multi_resource_isolation.Alloc.{Platform}
use multi_resource_isolation.Alloc.Assoc.{
  tolerate, tolerate_entry, cos_assoc_get, cos_assoc_set, hw_alloc_assoc_set, hw_alloc_assoc_get,
}
use multi_resource_isolation.Alloc.Assoc.Field.{
  PerCore, class_in, rmid_half, cos_assoc_get_lem, cos_assoc_set_total, cos_assoc_set_lem,
}

module _ (m : Msr) (p : Platform) (lcore num_l3_cos num_l2_cos : ℕ) (l3_cap l2_cap : Bool)
    (known : check_core p.cpu lcore ≡ ok tt)
    (l3_classes : tolerate (l3ca_get_cos_num p.interface p.cap) ≡ ok num_l3_cos)
    (l2_classes : tolerate (l2ca_get_cos_num p.interface p.cap) ≡ ok num_l2_cos)
    (l3_entry : tolerate_entry (get_type p.interface p.cap l3ca_type) ≡ ok l3_cap)
    (l2_entry : tolerate_entry (get_type p.interface p.cap l2ca_type) ≡ ok l2_cap) where
  -- On a known core a class that neither cache allocation has is refused with PARAM, and nothing is
  -- written; any other goes to `cos_assoc_set`.
  hw_alloc_assoc_set-checks :
      (class_id : ℕ) (s : m.State)
      → hw_alloc_assoc_set m p lcore class_id s ≡ (
          if leb num_l3_cos class_id && leb num_l2_cos class_id
          then (err Retval.param, s)
          else cos_assoc_set m lcore class_id s)
  unfolding hw_alloc_assoc_set
  hw_alloc_assoc_set-checks class_id s = ground arith

  assoc_get-eq :
      (s : m.State)
      → (l3_cap ≡ true) ⊎ (l2_cap ≡ true)
      → hw_alloc_assoc_get m p lcore s ≡ cos_assoc_get m lcore s
  unfolding hw_alloc_assoc_get
  assoc_get-eq s present = ground arith

  accepted :
      (class_id : ℕ) (s : m.State)
      → (class_id < num_l3_cos) ⊎ (class_id < num_l2_cos)
      → hw_alloc_assoc_set m p lcore class_id s ≡ cos_assoc_set m lcore class_id s
  accepted class_id s ranged = ground (arith, hw_alloc_assoc_set-checks class_id s)

  -- With a driver that accepts every access, an association to a class of either cache allocation
  -- succeeds, reads back as that class, leaves the class of every other core and every RMID alone.
  pub alloc_assoc_get-set :
      (a : Accepts m) (g : Registers m) (class_id c : ℕ) (s : m.State)
      → PerCore g
      → class_id < 2 ^ 32
      → (l3_cap ≡ true) ⊎ (l2_cap ≡ true)
      → (class_id < num_l3_cos) ⊎ (class_id < num_l2_cos)
      → let (r, s') = hw_alloc_assoc_set m p lcore class_id s in
        (r ≡ ok tt)
        × ((hw_alloc_assoc_get m p lcore s').0 ≡ ok class_id)
        × (class_in g s' c ≡ (if c == lcore then class_id else class_in g s c))
        × (rmid_half (g.peek s' c msr_assoc) ≡ rmid_half (g.peek s c msr_assoc))
  alloc_assoc_get-set a g class_id c s own word present ranged =
      let passed = accepted class_id s ranged in
      let s' = (hw_alloc_assoc_set m p lcore class_id s).1 in
      let done = cos_assoc_set_total m a g lcore class_id s in
      let at = λ (d : ℕ). cos_assoc_set_lem m g lcore class_id s d own word done in
      let seen : class_in g s' lcore ≡ class_id =
        ap (λ t. class_in g t.1 lcore) passed
        ∙ (at lcore).0
        ∙ ap (λ b. if b then class_id else class_in g s lcore) (eq→== lcore lcore refl) in
      (
        ap (λ t. t.0) passed ∙ done,
        ap (λ t. t.0) (assoc_get-eq s' present) ∙ cos_assoc_get_lem m a g lcore s' ∙ ap ok seen,
        ap (λ t. class_in g t.1 c) passed ∙ (at c).0,
        ap (λ t. rmid_half (g.peek t.1 c msr_assoc)) passed ∙ (at c).1,
      )
