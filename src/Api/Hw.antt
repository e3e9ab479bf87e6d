-- ===== src/Api/Hw.antt =====
-- The functions of lib/allocation.c as the MSR interface of the API. Its state is the tables that
-- `pqos_alloc_init` was given, of which a reset changes one, and the registers.
use multi_resource_isolation.Prelude.{Bool, List}
use multi_resource_isolation.Types.{ok, err, Action}
use multi_resource_isolation.Msr.{Msr}
use multi_resource_isolation.Cap.{Cap}
use multi_resource_isolation.Alloc.{Platform}
use multi_resource_isolation.Alloc.L3.{L3ca, hw_l3ca_set, hw_l3ca_get}
use multi_resource_isolation.Alloc.L2.{hw_l2ca_set, hw_l2ca_get}
use multi_resource_isolation.Alloc.Mba.{hw_mba_set, hw_mba_get}
use multi_resource_isolation.Alloc.Assoc.{hw_alloc_assoc_set, hw_alloc_assoc_get}
use multi_resource_isolation.Alloc.Assign.{hw_alloc_assign, hw_alloc_release}
use multi_resource_isolation.Alloc.Reset.{hw_alloc_reset}
use multi_resource_isolation.Alloc.MinCbm.{hw_l3ca_get_min_cbm_bits, hw_l2ca_get_min_cbm_bits}
use multi_resource_isolation.Api.{Backend}

pub record Hardware (m : Msr) : Type 0 where
  pub platform : Platform
  pub registers : m.State

module _ (m : Msr) where
  abbrev pub on_registers : {A : Type 0} → (Platform → Action m.State A) → Action (Hardware m) A
  on_registers f s = let (r, s') = f s.platform s.registers in (r, record s { registers = s' })

  -- A call that returns the capability table as it leaves it.
  abbrev pub on_tables : (Platform → Action m.State Cap) → Action (Hardware m) (Unit {0})
  on_tables f s =
      let (r, s') = f s.platform s.registers in
      elim r [
        | ok cap' ↦ (ok tt, record { platform = record s.platform { cap = cap' }; registers = s' })
        | err e ↦ (err e, record s { registers = s' })
      ]

  -- `sockets` and `l2ids` say whether the memory for the lists of ids is granted; `first` and
  -- `stack` are the table of 16 entries on the stack of `hw_l3ca_get_min_cbm_bits`.
  abbrev pub hw_backend : Bool → Bool → L3ca → List L3ca → Backend (Hardware m)
  hw_backend sockets l2ids first stack = record {
    assoc_set = λ lcore class_id. on_registers (λ p. hw_alloc_assoc_set m p lcore class_id);
    assoc_get = λ lcore. on_registers (λ p. hw_alloc_assoc_get m p lcore);
    assign = λ technology cores. on_registers (λ p. hw_alloc_assign m p technology cores);
    release = λ cores. on_registers (λ p. hw_alloc_release m cores);
    reset = λ cfg. on_tables (λ p. hw_alloc_reset m p sockets l2ids cfg);
    l3ca_set = λ socket ca. on_registers (λ p. hw_l3ca_set m p socket ca);
    l3ca_get = λ socket ca. on_registers (λ p. hw_l3ca_get m p socket ca);
    l3ca_min = on_registers (λ p. hw_l3ca_get_min_cbm_bits m p sockets first stack);
    l2ca_set = λ l2id ca. on_registers (λ p. hw_l2ca_set m p l2id ca);
    l2ca_get = λ l2id max_num_ca. on_registers (λ p. hw_l2ca_get m p l2id max_num_ca);
    l2ca_min = on_registers (λ p. hw_l2ca_get_min_cbm_bits m p l2ids);
    mba_set = λ socket requested wanted. on_registers (λ p. hw_mba_set m p socket requested wanted);
    mba_get = λ socket max_num_cos. on_registers (λ p. hw_mba_get m p socket max_num_cos);
  }
