-- ===== src/Alloc/Mba/Set.antt =====
-- What `hw_mba_set` writes, and what `hw_mba_get` returns.
use multi_resource_isolation.Prelude.{
  ℕ, ◌+◌, ◌≡◌, refl, sym, ap, ◌∙◌, false, not, List, [], ◌∷◌, arith, u32, if◌then◌else◌, inl, inr,
  Bool-cases,
}
use multi_resource_isolation.Types.{Result, ok, err, Retval, pure, ◌>>=◌}
use multi_resource_isolation.Types.Bind.{bind_of_ok, bind_pure}
use multi_resource_isolation.Msr.{Msr, write_msr, msr_mba_mask_start}
use multi_resource_isolation.Msr.Writes.{Writes, write_all}
use multi_resource_isolation.Cpu.{get_one_core}
use multi_resource_isolation.Cap.{CapMba, get_type, as_mba, mba_type}
use multi_resource_isolation.Alloc.{Platform}
use multi_resource_isolation.Alloc.Mba.{Mba, out_of_range, throttled, set_mba, hw_mba_set}

-- The register and the delay of each entry.
abbrev pub mba_writes : CapMba → List Mba → Writes
mba_writes c [] = []
mba_writes c (r ∷ rs) =
    (u32 (r.class_id + msr_mba_mask_start), throttled c r.mb_rate) ∷ mba_writes c rs

-- The outcome of the writes, with an empty table of read-back values.
abbrev pub no_table : {S : Type 0} → Result (Unit {0}) × S → Result (List Mba) × S
no_table (ok u, s) = (ok [], s)
no_table (err e, s) = (err e, s)

module _ (m : Msr) where
  set_mba-eq :
      (core : ℕ) (c : CapMba) (rs : List Mba) (s : m.State)
      → set_mba m core c false rs s ≡ no_table (write_all m core (mba_writes c rs) s)
  unfolding set_mba write_all
  set_mba-eq core c [] s = refl
  set_mba-eq core c (r ∷ rs) s =
      let reg = u32 (r.class_id + msr_mba_mask_start) in
      let val = throttled c r.mb_rate in
      let s' = (write_msr m core reg val s).1 in
      let others = set_mba m core c false rs in
      elim (Bool-cases (m.write core reg val s).0) [
        | inl t ↦
            let done : (write_msr m core reg val s).0 ≡ ok tt = rw t refl in
            bind_of_ok (write_msr m core reg val) (λ _. others >>= λ rest. pure rest) s done
            ∙ bind_pure others s'
            ∙ set_mba-eq core c rs s'
            ∙ ap no_table (
                sym (
                  bind_of_ok (write_msr m core reg val) (λ _. write_all m core (mba_writes c rs)) s
                    done))
        | inr f ↦ ground arith
      ]

module _ (m : Msr) (p : Platform) (socket core : ℕ) (c : CapMba)
    (cap : as_mba (get_type p.interface p.cap mba_type) ≡ ok c)
    (found : get_one_core p.cpu socket ≡ ok core) where
  -- Every outcome of `hw_mba_set` without a table `actual`: RESOURCE in non-linear mode and PARAM for
  -- a class out of range, both before any register is written; otherwise exactly the writes of the
  -- rounded and throttled delays, in the order of the requests, up to the first that fails.
  hw_mba_set_lem :
      (requested : List Mba) (s : m.State)
      → hw_mba_set m p socket requested false s ≡ (
          if not c.is_linear
          then (err Retval.resource, s)
          else (if out_of_range c.num_classes requested
              then (err Retval.param, s)
              else no_table (write_all m core (mba_writes c requested) s)))
  unfolding hw_mba_set
  hw_mba_set_lem requested s = ground (arith, set_mba-eq m core c requested s)
