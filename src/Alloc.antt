-- ===== src/Alloc.antt =====
-- lib/allocation.c: the allocation technologies through the MSR interface. A child module for each
-- technology; this file has what they share.
pub mod L3
pub mod L2
pub mod Mba
pub mod Assoc
pub mod Assign
pub mod Reset
pub mod MinCbm
use multi_resource_isolation.Prelude.{ℕ, Bool}
use multi_resource_isolation.Cpu.{Cpuinfo}
use multi_resource_isolation.Cap.{Cap, Interface}

-- What the compiled code makes of three expressions where C leaves them undefined:
-- `(1ULL << n) - 1ULL` from 64 on, `(1 << n) - 1` for an `int` of 32 bits from 31 on, and
-- `used_classes[k]` past the array, from PQOS_MAX_L3CA_COS on.
pub record Undefined : Type 0 where
  pub shift64 : ℕ → ℕ
  pub shift_int : ℕ → ℕ
  pub past_classes : ℕ → Bool

-- PQOS_MAX_L3CA_COS
abbrev pub max_l3ca_cos : ℕ
max_l3ca_cos = 16

-- The globals `m_cap`, `m_cpu` and `m_interface`, which `pqos_alloc_init` sets; and the undefined
-- expressions.
pub record Platform : Type 0 where
  pub interface : Interface
  pub cap : Cap
  pub cpu : Cpuinfo
  pub undefined : Undefined

-- PQOS_MSR_L3CA_MASK_START, PQOS_MSR_L2CA_MASK_START and PQOS_MSR_L3_QOS_CFG
abbrev pub msr_l3ca_mask_start : ℕ
msr_l3ca_mask_start = 0xC90

abbrev pub msr_l2ca_mask_start : ℕ
msr_l2ca_mask_start = 0xD10

abbrev pub msr_l3_qos_cfg : ℕ
msr_l3_qos_cfg = 0xC81

-- PQOS_MBA_LINEAR_MAX
abbrev pub mba_linear_max : ℕ
mba_linear_max = 100
