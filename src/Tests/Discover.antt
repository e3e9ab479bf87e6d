-- ===== src/Tests/Discover.antt =====
-- Monitoring discovered from CPUID leaves with occupancy, both bandwidths and the counters.
use multi_resource_isolation.Prelude.{
  ℕ, ◌≡◌, refl, true, ◌==◌, if◌then◌else◌, [], ◌∷◌, length, List, All, some,
}
use multi_resource_isolation.Cpu.{get_sockets, get_one_core}
use multi_resource_isolation.Cap.{CapMon, l3_occup, lmem_bw, tmem_bw, rmem_bw, llc_miss, ipc}
use multi_resource_isolation.Discover.{
  Cpuid, get_cache_info, fill_events, discover_monitoring, count_cdp, cdp_is_enabled,
}
use multi_resource_isolation.Discover.Monitoring.{types, discover_monitoring_lem}
use multi_resource_isolation.Discover.L3.{Shows, cdp_is_enabled_lem}
use multi_resource_isolation.Tests.Bench.{bench, bench_registers, four_cores, powered_on}

abbrev all_events : Cpuid
all_events leaf subleaf =
    if leaf == 0x7
    then record { eax = 0; ebx = 0x1000; ecx = 0; edx = 0 }
    else if leaf == 0xA
    then record { eax = 0x400; ebx = 0; ecx = 0; edx = 3 }
    else if subleaf == 0
    then record { eax = 0; ebx = 63; ecx = 0; edx = 2 }
    else record { eax = 0; ebx = 64; ecx = 63; edx = 7 }

abbrev found : CapMon
unfolding fill_events
found =
    fill_events (all_events 0xF 1) (all_events 0xA 0)
      (record { max_rmid = 64; l3_size = four_cores.l3.total_size; events = [] })

discover_monitoring_lem_example :
    (types found.events ≡ l3_occup ∷ tmem_bw ∷ lmem_bw ∷ rmem_bw ∷ ipc ∷ llc_miss ∷ [])
    × (length found.events ≡ 6)
    × (found.max_rmid ≡ 64)
    × (four_cores.l3.detected ≡ true)
    × (found.l3_size ≡ 22528)
unfolding discover_monitoring get_cache_info fill_events
discover_monitoring_lem_example =
    discover_monitoring_lem all_events true four_cores {mon = found} refl

cdp_is_enabled_lem_example :
    (sockets : List ℕ) × (get_sockets true four_cores ≡ some sockets)
    × All (Shows bench bench_registers four_cores powered_on (λ b. b ≡ true)) sockets
unfolding cdp_is_enabled get_sockets count_cdp get_one_core
cdp_is_enabled_lem_example =
    cdp_is_enabled_lem bench bench_registers four_cores powered_on true {on = true} refl
