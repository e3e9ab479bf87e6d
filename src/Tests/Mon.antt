-- ===== src/Tests/Mon.antt =====
-- Monitoring on the bench: its registers at 0, and RMIDs 0 to 7.
use multi_resource_isolation.Prelude.{
  ℕ, if◌then◌else◌, ◌==◌, ◌^◌, ◌+◌, ◌<◌, ◌≡◌, ◌+◌, ◌≢◌, refl, true, false, some, [], ◌∷◌, arith,
  length, In,
}
use multi_resource_isolation.Msr.{Msr}
use multi_resource_isolation.Types.{Result, ok}
use multi_resource_isolation.Cpu.{
  listed, check_core, get_clusterid, clusterid_in, get_cores_l3id, matching, l3_cluster,
}
use multi_resource_isolation.Cap.{
  Cap, l3_occup, lmem_bw, tmem_bw, rmem_bw, mon_item, msr, get_type, get_event,
}
use multi_resource_isolation.Alloc.{Platform}
use multi_resource_isolation.Alloc.Assoc.Field.{class_in}
use multi_resource_isolation.Mon.{MonData, zero_group}
use multi_resource_isolation.Mon.Assoc.{
  with_rmid, mon_assoc_get, mon_assoc_set, zero_rmids, hw_mon_reset,
}
use multi_resource_isolation.Mon.Assoc.Field.{rmid_in}
use multi_resource_isolation.Mon.Assoc.Reset.{hw_mon_reset_lem}
use multi_resource_isolation.Mon.Rmid.{scan_events, rmid_limit, find_rmid, read_rmids, rmid_alloc}
use multi_resource_isolation.Mon.Rmid.Free.{rmid_alloc_lem, rmid_alloc_total}
use multi_resource_isolation.Mon.Perf.{ia32_perf_counter_start, ia32_perf_counter_stop}
use multi_resource_isolation.Mon.Start.{
  Grants, check_events, has_context, rmid_for, context_unless, plan, associate, undo, begin,
  hw_mon_start, check_contexts, end_monitoring, hw_mon_stop,
}
use multi_resource_isolation.Mon.Start.Started.{Monitored, hw_mon_start-Monitored}
use multi_resource_isolation.Mon.Start.Stopped.{again, hw_mon_stop-start}
use multi_resource_isolation.Mon.Poll.{
  get_delta, mon_read, msr_mon_qmc, read_qmc, scale_event, sum_reads, poll_if, poll_llc, poll_local,
  poll_total, poll_remote, poll_ipc, poll_misses, end_poll, core_poll, pqos_core_poll,
}
use multi_resource_isolation.Mon.Poll.Delta.{get_delta_lem, mon_read-unavailable}
use multi_resource_isolation.Mon.Poll.Bandwidth.{Polled, pqos_core_poll-Polled}
use multi_resource_isolation.Tests.Bench.{
  all_zero, bench, bench_accepts, bench_registers, bench_PerCore, four_cores, Bank,
}

abbrev mon_caps : Cap
mon_caps = record {
  version = 10200;
  capabilities =
      record {
        os_support = true;
        u = mon_item (record {
          max_rmid = 8;
          l3_size = 22528;
          events =
              record { type = l3_occup; max_rmid = 8; scale_factor = 64; os_support = false }
              ∷ record { type = tmem_bw; max_rmid = 8; scale_factor = 64; os_support = false }
              ∷ record { type = lmem_bw; max_rmid = 8; scale_factor = 64; os_support = false }
              ∷ record { type = rmem_bw; max_rmid = 8; scale_factor = 64; os_support = false }
              ∷ [];
        });
      }
      ∷ [];
}

abbrev mon_platform : Platform
mon_platform = record { interface = msr; cap = mon_caps; cpu = four_cores; undefined = all_zero }

abbrev zeros : Bank
zeros d r = 0

abbrev all_granted : Grants
all_granted = record { core_list = λ k. true; rmid_list = λ k. true; cores = true; poll_ctx = true }

rmid_alloc_total_example :
    (r : ℕ) × ((rmid_alloc bench mon_platform 8 true true 1 1 zeros).0 ≡ ok r)
unfolding rmid_limit scan_events get_type matching
rmid_alloc_total_example =
    let size : length (matching l3_cluster 1 four_cores.cores) ≡ 2 = refl in
    rmid_alloc_total bench bench_accepts bench_registers mon_platform 8 1 1 8 zeros refl
      (omega arith) (omega arith)

rmid_alloc_lem_example :
    let cores = matching l3_cluster 1 four_cores.cores in
    (n : ℕ) × (rmid_limit mon_platform 8 1 ≡ ok n)
    × (7 < n)
    × ((c : ℕ) → In c cores → rmid_in bench_registers zeros c ≢ 7)
    × ((k : ℕ) → 7 < k → k < n → (c : ℕ) × In c cores × (rmid_in bench_registers zeros c ≡ k))
unfolding rmid_alloc rmid_limit scan_events get_type get_cores_l3id read_rmids mon_assoc_get
    find_rmid listed
rmid_alloc_lem_example =
    rmid_alloc_lem bench bench_registers mon_platform 8 true true 1 1 zeros {r = 7} refl

get_delta_lem_example : get_delta 16777210 4 ≡ 10
get_delta_lem_example = get_delta_lem 16777210 10 (omega arith) (omega arith)

-- A driver whose state is the number of reads so far, on which the value of an event is never
-- available.
abbrev stuck : Msr
stuck = record {
  State = ℕ;
  read = λ core reg n. (some (if reg == msr_mon_qmc then 2 ^ 62 + n else 0), n + 1);
  write = λ core reg v n. (true, n);
}

mon_read-unavailable_example : mon_read stuck 0 1 1 7 ≡ (let t : Result ℕ × ℕ = (ok 9, 10) in t)
mon_read-unavailable_example =
    mon_read-unavailable stuck 0 1 1 (2 ^ 62 + 7) (2 ^ 62 + 8) (2 ^ 62 + 9) 7 7 8 9 10 refl refl
      refl refl refl refl refl refl refl

abbrev started_group : MonData
started_group = record zero_group {
  event = 1;
  cores = 2 ∷ 3 ∷ [];
  poll_ctx = record { lcore = 2; cluster = 1; rmid = 7 } ∷ [];
}

hw_mon_start-Monitored_example :
    let s' = (hw_mon_start bench mon_platform 8 all_granted (2 ∷ 3 ∷ []) 1 0 zeros).1 in
    Monitored bench bench_registers bench_PerCore mon_platform 8 all_granted
      (2 ∷ 3 ∷ [])
      1
      0
      zeros
      s'
      3
    × (class_in bench_registers s' 3 ≡ 0)
unfolding hw_mon_start check_events get_event get_type plan check_core get_clusterid clusterid_in
    context_unless has_context rmid_alloc rmid_limit scan_events get_cores_l3id read_rmids
    mon_assoc_get find_rmid listed begin ia32_perf_counter_start associate rmid_for mon_assoc_set
    undo with_rmid
hw_mon_start-Monitored_example =
    hw_mon_start-Monitored bench bench_registers bench_PerCore mon_platform 8 all_granted
      (2 ∷ 3 ∷ []) 1 0 zeros {group = started_group} 3 (omega arith) refl refl

hw_mon_stop-start_example :
    let (r, w) =
      again bench bench_registers bench_PerCore mon_platform 8 all_granted
        (2 ∷ 3 ∷ [])
        1
        0
        zeros
        started_group in
    (w.group ≡ zero_group)
    × (rmid_in bench_registers w.registers 3 ≡ 0)
    × (class_in bench_registers w.registers 3 ≡ 0)
unfolding hw_mon_start check_events get_event get_type plan check_core get_clusterid clusterid_in
    context_unless has_context rmid_alloc rmid_limit scan_events get_cores_l3id read_rmids
    mon_assoc_get find_rmid listed begin ia32_perf_counter_start associate rmid_for mon_assoc_set
    undo with_rmid hw_mon_stop check_contexts end_monitoring zero_rmids ia32_perf_counter_stop
hw_mon_stop-start_example =
    hw_mon_stop-start bench bench_registers bench_PerCore mon_platform 8 all_granted (2 ∷ 3 ∷ []) 1
      0 zeros {group = started_group} 3 (omega arith) refl refl

abbrev remote_group : MonData
remote_group = record zero_group {
  event = 8;
  cores = 2 ∷ 3 ∷ [];
  poll_ctx = record { lcore = 2; cluster = 1; rmid = 7 } ∷ [];
}

pqos_core_poll-Polled_example :
    Polled remote_group
      (pqos_core_poll bench
        (λ fd s. (0, s))
        mon_platform
        (record { group = remote_group; registers = zeros })).1.group
unfolding pqos_core_poll core_poll poll_llc poll_local poll_total poll_remote poll_ipc poll_misses
    end_poll poll_if sum_reads mon_read read_qmc scale_event get_event get_type get_delta
pqos_core_poll-Polled_example =
    pqos_core_poll-Polled bench (λ fd s. (0, s)) mon_platform remote_group zeros refl refl

hw_mon_reset_lem_example :
    let s' = (hw_mon_reset bench mon_platform true (λ d r. 5)).1 in
    (rmid_in bench_registers s' 2 ≡ 0) × (class_in bench_registers s' 2 ≡ 0)
unfolding hw_mon_reset zero_rmids mon_assoc_set listed with_rmid
hw_mon_reset_lem_example =
    hw_mon_reset_lem bench bench_registers bench_PerCore mon_platform (λ d r. 5) 2 refl
