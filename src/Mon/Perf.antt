-- ===== src/Mon/Perf.antt =====
-- The performance counters in lib/monitoring.c: `ia32_perf_counter_start` and
-- `ia32_perf_counter_stop`.
pub mod Keeps
use multi_resource_isolation.Prelude.{
  ℕ, ◌+◌, ◌*◌, ◌^◌, Bool, true, false, ◌||◌, bit_or, if◌then◌else◌, List, [], ◌∷◌, ◌++◌,
}
use multi_resource_isolation.Types.{Result, ok, Action, pure, ◌>>=◌, ◌>>◌}
use multi_resource_isolation.Cap.{llc_miss, ipc}
use multi_resource_isolation.Msr.{Msr, read_msr, write_msr}
use multi_resource_isolation.Msr.Writes.{Writes, write_all}
use multi_resource_isolation.Alloc.Assign.{after}
use multi_resource_isolation.Mon.{event_value, has}

-- IA32_MSR_INST_RETIRED_ANY, IA32_MSR_CPU_UNHALTED_REF, IA32_MSR_FIXED_CTR_CTRL,
-- IA32_MSR_PERF_GLOBAL_CTRL, IA32_MSR_PMC0 and IA32_MSR_PERFEVTSEL0
abbrev pub msr_inst_retired_any : ℕ
msr_inst_retired_any = 0x309

abbrev pub msr_cpu_unhalted_ref : ℕ
msr_cpu_unhalted_ref = 0x30B

abbrev pub msr_fixed_ctr_ctrl : ℕ
msr_fixed_ctr_ctrl = 0x38D

abbrev pub msr_perf_global_ctrl : ℕ
msr_perf_global_ctrl = 0x38F

abbrev pub msr_pmc0 : ℕ
msr_pmc0 = 0x0C1

abbrev pub msr_perfevtsel0 : ℕ
msr_perfevtsel0 = 0x186

-- The events that take a performance counter.
abbrev pub perf_ipc : ℕ → Bool
perf_ipc event = has event (event_value ipc)

abbrev pub perf_miss : ℕ → Bool
perf_miss event = has event (event_value llc_miss)

-- `global_ctrl_mask`: fixed counters 0 and 2, and programmable counter 0.
abbrev pub global_ctrl_mask : ℕ → ℕ
global_ctrl_mask event =
    bit_or (if perf_ipc event then 5 * 2 ^ 32 else 0) (if perf_miss event then 1 else 0)

-- The miss event with its unit mask, in user and system mode, enabled.
abbrev pub evtsel0_miss : ℕ
evtsel0_miss = 0x2E + 0x41 * 2 ^ 8 + 2 ^ 16 + 2 ^ 17 + 2 ^ 22

-- The writes to one core: counting stopped, the counters set up, counting started.
unfoldable pub counter_writes : ℕ → Writes
counter_writes event =
    (msr_perf_global_ctrl, 0)
    ∷ ((if perf_ipc event
          then (msr_inst_retired_any, 0)
            ∷ (msr_cpu_unhalted_ref, 0)
            ∷ (msr_fixed_ctr_ctrl, 0x303)
            ∷ []
          else [])
        ++ ((if perf_miss event then (msr_pmc0, 0) ∷ (msr_perfevtsel0, evtsel0_miss) ∷ [] else [])
            ++ ((msr_perf_global_ctrl, global_ctrl_mask event) ∷ [])))

module _ (m : Msr) where
  -- The first loop, which only warns of counters in use.
  unfoldable pub check_in_use : List ℕ → Action m.State (Unit {0})
  check_in_use [] = pure tt
  check_in_use (core ∷ cores) = do
    global_inuse ← read_msr m core msr_perf_global_ctrl
    check_in_use cores

  -- The second loop, which a failed write ends.
  unfoldable pub start_counters : ℕ → List ℕ → Action m.State (Unit {0})
  start_counters event [] = pure tt
  start_counters event (core ∷ cores) =
      write_all m core (counter_writes event) >> start_counters event cores

  unfoldable pub ia32_perf_counter_start : ℕ → List ℕ → Action m.State (Unit {0})
  ia32_perf_counter_start event cores = elim (perf_miss event || perf_ipc event) [
    | false ↦ pure tt
    | true ↦ check_in_use cores >> start_counters event cores
  ]

  -- The loop of `ia32_perf_counter_stop`: a failure is reported, and does not stop the loop.
  unfoldable pub stop_counters : List ℕ → Result (Unit {0}) → Action m.State (Unit {0})
  stop_counters [] retval s = (retval, s)
  stop_counters (core ∷ cores) retval s =
      let (r, s') = write_msr m core msr_perf_global_ctrl 0 s in
      stop_counters cores (after retval r) s'

  unfoldable pub ia32_perf_counter_stop : ℕ → List ℕ → Action m.State (Unit {0})
  ia32_perf_counter_stop event cores = elim (perf_miss event || perf_ipc event) [
    | false ↦ pure tt
    | true ↦ stop_counters cores (ok tt)
  ]
