-- ===== src/Mon/Perf/Keeps.antt =====
-- The performance counters leave the association of cores alone.
use multi_resource_isolation.Prelude.{
  ℕ, ◌≢◌, refl, ◌∙◌, Bool, true, false, ◌||◌, arith, if◌then◌else◌, List, [], ◌∷◌, ◌++◌, All,
}
use multi_resource_isolation.Types.{Result, ok, pure, ◌>>◌}
use multi_resource_isolation.Msr.{Msr, Registers, msr_assoc, read_msr, write_msr}
use multi_resource_isolation.Msr.Writes.{Writes, write_all}
use multi_resource_isolation.Msr.Keeps.{
  Keeps, bind-Keeps, read_msr-Keeps, write_msr-Keeps, write_all-Keeps,
}
use multi_resource_isolation.Alloc.Assign.{after}
use multi_resource_isolation.Mon.Perf.{
  msr_perf_global_ctrl, msr_inst_retired_any, msr_cpu_unhalted_ref, msr_fixed_ctr_ctrl, msr_pmc0,
  msr_perfevtsel0, evtsel0_miss, global_ctrl_mask, perf_miss, perf_ipc, counter_writes,
  check_in_use, start_counters, ia32_perf_counter_start, stop_counters, ia32_perf_counter_stop,
}

abbrev Elsewhere : Writes → Type 0
Elsewhere = All (λ w. w.0 ≢ msr_assoc)

if-Elsewhere :
    (b : Bool) (xs ys zs : Writes)
    → Elsewhere (xs ++ zs)
    → Elsewhere (ys ++ zs)
    → Elsewhere ((if b then xs else ys) ++ zs)
if-Elsewhere true xs ys zs h k = h
if-Elsewhere false xs ys zs h k = k

abbrev miss_writes : ℕ → Writes
miss_writes event =
    if perf_miss event then (msr_pmc0, 0) ∷ (msr_perfevtsel0, evtsel0_miss) ∷ [] else []

abbrev last_write : ℕ → Writes
last_write event = (msr_perf_global_ctrl, global_ctrl_mask event) ∷ []

misses : (event : ℕ) → Elsewhere (miss_writes event ++ last_write event)
misses event =
    if-Elsewhere (perf_miss event) ((msr_pmc0, 0) ∷ (msr_perfevtsel0, evtsel0_miss) ∷ []) []
      (last_write event) (omega arith) (omega arith)

counter_writes-Elsewhere : (event : ℕ) → Elsewhere (counter_writes event)
unfolding counter_writes
counter_writes-Elsewhere event = (
  omega arith,
  if-Elsewhere (perf_ipc event)
      ((msr_inst_retired_any, 0) ∷ (msr_cpu_unhalted_ref, 0) ∷ (msr_fixed_ctr_ctrl, 0x303) ∷ []) []
      (miss_writes event ++ last_write event)
      (omega arith, (omega arith, (omega arith, misses event))) (misses event),
)

module _ (m : Msr) (g : Registers m) where
  check_in_use-Keeps : (cores : List ℕ) → Keeps g msr_assoc (check_in_use m cores)
  unfolding check_in_use
  check_in_use-Keeps [] = λ s c. refl
  check_in_use-Keeps (core ∷ cores) =
      bind-Keeps g (read_msr m core msr_perf_global_ctrl) (λ v. check_in_use m cores)
        (read_msr-Keeps g core msr_perf_global_ctrl) (λ v. check_in_use-Keeps cores)

  start_counters-Keeps :
      (event : ℕ) (cores : List ℕ) → Keeps g msr_assoc (start_counters m event cores)
  unfolding start_counters
  start_counters-Keeps event [] = λ s c. refl
  start_counters-Keeps event (core ∷ cores) =
      bind-Keeps g (write_all m core (counter_writes event)) (λ v. start_counters m event cores)
        (write_all-Keeps g core (counter_writes event) (counter_writes-Elsewhere event))
        (λ v. start_counters-Keeps event cores)

  pub ia32_perf_counter_start-Keeps :
      (event : ℕ) (cores : List ℕ) → Keeps g msr_assoc (ia32_perf_counter_start m event cores)
  unfolding ia32_perf_counter_start
  ia32_perf_counter_start-Keeps event cores = by_events (perf_miss event || perf_ipc event)
    where
      by_events :
          (b : Bool)
          → Keeps g msr_assoc (elim b [
            | false ↦ pure tt
            | true ↦ check_in_use m cores >> start_counters m event cores
          ])
      by_events false = λ s c. refl
      by_events true =
          bind-Keeps g (check_in_use m cores) (λ v. start_counters m event cores)
            (check_in_use-Keeps cores) (λ v. start_counters-Keeps event cores)

  stop_counters-Keeps :
      (cores : List ℕ) (r : Result (Unit {0})) → Keeps g msr_assoc (stop_counters m cores r)
  unfolding stop_counters
  stop_counters-Keeps [] r s c = refl
  stop_counters-Keeps (core ∷ cores) r s c =
      let one = write_msr m core msr_perf_global_ctrl 0 s in
      stop_counters-Keeps cores (after r one.0) one.1 c
      ∙ write_msr-Keeps g core msr_perf_global_ctrl 0 (omega arith) s c

  pub ia32_perf_counter_stop-Keeps :
      (event : ℕ) (cores : List ℕ) → Keeps g msr_assoc (ia32_perf_counter_stop m event cores)
  unfolding ia32_perf_counter_stop
  ia32_perf_counter_stop-Keeps event cores = by_events (perf_miss event || perf_ipc event)
    where
      by_events :
          (b : Bool)
          → Keeps g msr_assoc (elim b [ false ↦ pure tt | true ↦ stop_counters m cores (ok tt) ])
      by_events false = λ s c. refl
      by_events true = stop_counters-Keeps cores (ok tt)
