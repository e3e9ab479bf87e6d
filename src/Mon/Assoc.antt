-- ===== src/Mon/Assoc.antt =====
-- The association of cores with RMIDs in lib/monitoring.c: `mon_assoc_get`, `mon_assoc_set`,
-- `hw_mon_assoc_get` and `hw_mon_reset`.
pub mod Field
pub mod Reset
use multi_resource_isolation.Prelude.{
  ℕ, ◌-◌, ◌^◌, Bool, true, false, bit_and, bit_or, List, [], ◌∷◌, Option, none, some,
}
use multi_resource_isolation.Types.{
  Retval, Result, ok, err, Action, pure, lift, fail_if, ◌>>=◌, ◌>>◌,
}
use multi_resource_isolation.Msr.{Msr, msr_assoc, read_msr, write_msr}
use multi_resource_isolation.Cpu.{Coreinfo, check_core}
use multi_resource_isolation.Alloc.{Platform}
use multi_resource_isolation.Alloc.Assoc.{or_param}
use multi_resource_isolation.Api.{check_init}

-- `val & PQOS_MSR_ASSOC_RMID_MASK`
abbrev pub rmid_of : ℕ → ℕ
rmid_of val = bit_and val (2 ^ 10 - 1)

-- `val &= PQOS_MSR_ASSOC_QECOS_MASK; val |= (uint64_t)(rmid & PQOS_MSR_ASSOC_RMID_MASK);`
unfoldable pub with_rmid : ℕ → ℕ → ℕ
with_rmid val rmid = bit_or (bit_and val (2 ^ 64 - 2 ^ 32)) (bit_and rmid (2 ^ 10 - 1))

-- `if (retval != PQOS_RETVAL_OK) ret = retval;`
abbrev pub keep_last : Result (Unit {0}) → Result (Unit {0}) → Result (Unit {0})
keep_last ret (ok u) = ret
keep_last ret (err e) = err e

-- The logical cores of a table.
abbrev pub lcores : List Coreinfo → List ℕ
lcores [] = []
lcores (c ∷ cs) = c.lcore ∷ lcores cs

module _ (m : Msr) where
  unfoldable pub mon_assoc_get : ℕ → Action m.State ℕ
  mon_assoc_get lcore = do val ← read_msr m lcore msr_assoc; pure (rmid_of val)

  unfoldable pub mon_assoc_set : ℕ → ℕ → Action m.State (Unit {0})
  mon_assoc_set lcore rmid = do
    val ← read_msr m lcore msr_assoc
    write_msr m lcore msr_assoc (with_rmid val rmid)

  -- The loops of `hw_mon_reset` and `hw_mon_stop`: a failure is reported, and does not stop the
  -- loop. `keep` is what they make of the code so far and the code of one call.
  unfoldable pub zero_rmids :
      (Result (Unit {0}) → Result (Unit {0}) → Result (Unit {0}))
      → List ℕ
      → Result (Unit {0})
      → Action m.State (Unit {0})
  zero_rmids keep [] ret s = (ret, s)
  zero_rmids keep (lcore ∷ cores) ret s =
      let (r, s') = mon_assoc_set lcore 0 s in zero_rmids keep cores (keep ret r) s'

  module _ (p : Platform) (init_done : Bool) where
    -- `out` says whether there is a place for the RMID.
    unfoldable pub hw_mon_assoc_get : ℕ → Bool → Action m.State ℕ
    hw_mon_assoc_get lcore out = do
      lift (check_init init_done true)
      fail_if (elim out [ true ↦ false | false ↦ true ]) Retval.param
      lift (or_param (check_core p.cpu lcore))
      mon_assoc_get lcore

    unfoldable pub hw_mon_reset : Action m.State (Unit {0})
    hw_mon_reset = do
      lift (check_init init_done true)
      zero_rmids keep_last (lcores p.cpu.cores) (ok tt)
