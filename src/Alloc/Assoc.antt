-- ===== src/Alloc/Assoc.antt =====
-- The association of cores with classes in lib/allocation.c: `cos_assoc_get`, `cos_assoc_set`,
-- `hw_alloc_assoc_set` and `hw_alloc_assoc_get`.
pub mod Field
pub mod RoundTrip
use multi_resource_isolation.Prelude.{
  ℕ, ◌+◌, ◌*◌, ◌/◌, ◌-◌, ◌^◌, Bool, true, false, ◌&&◌, bit_and, bit_or, leb, u32, u64, Option, none,
  some,
}
use multi_resource_isolation.Types.{
  Retval, Result, ok, err, Action, pure, lift, fail_if, ◌>>=◌, ◌>>◌,
}
use multi_resource_isolation.Msr.{Msr, msr_assoc, read_msr, write_msr}
use multi_resource_isolation.Cpu.{check_core}
use multi_resource_isolation.Cap.{
  Capability, l3ca_type, l2ca_type, get_type, l3ca_get_cos_num, l2ca_get_cos_num,
}
use multi_resource_isolation.Alloc.{Platform}

-- `if (ret != PQOS_RETVAL_OK && ret != PQOS_RETVAL_RESOURCE) return ret;`, where the number of
-- classes was set to 0 before the call.
abbrev pub tolerate : Result ℕ → Result ℕ
tolerate (ok n) = ok n
tolerate (err Retval.resource) = ok 0
tolerate (err e) = err e

-- The same of the entry pointer, which was NULL before the call.
abbrev pub tolerate_entry : Result Capability → Result Bool
tolerate_entry (ok c) = ok true
tolerate_entry (err Retval.resource) = ok false
tolerate_entry (err e) = err e

-- Any code of `pqos_cpu_check_core` but OK becomes PARAM.
abbrev pub or_param : {A : Type 0} → Result A → Result A
or_param (ok a) = ok a
or_param (err e) = err Retval.param

-- The class in the upper half of the association register.
abbrev pub class_of : ℕ → ℕ
class_of val = u32 (val / 2 ^ 32)

-- `val &= ~PQOS_MSR_ASSOC_QECOS_MASK; val |= ((uint64_t) class_id) << 32;`
unfoldable pub with_class : ℕ → ℕ → ℕ
with_class val class_id = bit_or (bit_and val (2 ^ 32 - 1)) (u64 (class_id * 2 ^ 32))

module _ (m : Msr) where
  unfoldable pub cos_assoc_get : ℕ → Action m.State ℕ
  cos_assoc_get lcore = do val ← read_msr m lcore msr_assoc; pure (class_of val)

  unfoldable pub cos_assoc_set : ℕ → ℕ → Action m.State (Unit {0})
  cos_assoc_set lcore class_id = do
    val ← read_msr m lcore msr_assoc
    write_msr m lcore msr_assoc (with_class val class_id)

  module _ (p : Platform) where
    unfoldable pub hw_alloc_assoc_set : ℕ → ℕ → Action m.State (Unit {0})
    hw_alloc_assoc_set lcore class_id = do
      lift (or_param (check_core p.cpu lcore))
      num_l3_cos ← lift (tolerate (l3ca_get_cos_num p.interface p.cap))
      num_l2_cos ← lift (tolerate (l2ca_get_cos_num p.interface p.cap))
      fail_if (leb num_l3_cos class_id && leb num_l2_cos class_id) Retval.param
      cos_assoc_set lcore class_id

    unfoldable pub hw_alloc_assoc_get : ℕ → Action m.State ℕ
    hw_alloc_assoc_get lcore = do
      lift (or_param (check_core p.cpu lcore))
      l3_cap ← lift (tolerate_entry (get_type p.interface p.cap l3ca_type))
      l2_cap ← lift (tolerate_entry (get_type p.interface p.cap l2ca_type))
      fail_if (elim l3_cap [ true ↦ false | false ↦ elim l2_cap [ true ↦ false | false ↦ true ] ])
          Retval.resource
      cos_assoc_get lcore
