-- ===== src/Info.antt =====
-- lib/cpuinfo.c: the discovery of the core table. The CPUID instruction, the calls on affinity and
-- the number of processors are parameters; 32-bit arithmetic is written out.
pub mod Pow2
pub mod Topology
pub mod Ends
use multi_resource_isolation.Prelude.{
  ℕ, zero, suc, ◌+◌, ◌-◌, ◌*◌, ◌/◌, ◌%◌, ◌^◌, Bool, true, false, not, ◌||◌, ◌&&◌, bit_and, bit_xor,
  ltb, leb, ◌==◌, if◌then◌else◌, u32, List, [], ◌∷◌, Option, none, some, set, get_or,
}
use multi_resource_isolation.Types.{Result, ok, err, Retval}
use multi_resource_isolation.Cpu.{Coreinfo, Cacheinfo, Cpuinfo}

-- `struct cpuid_out`
pub record CpuidOut : Type 0 where
  pub eax : ℕ
  pub ebx : ℕ
  pub ecx : ℕ
  pub edx : ℕ

-- `struct apic_info`
pub record ApicInfo : Type 0 where
  pub smt_mask : ℕ
  pub smt_size : ℕ
  pub core_mask : ℕ
  pub core_smt_mask : ℕ
  pub pkg_mask : ℕ
  pub pkg_shift : ℕ
  pub l2_shift : ℕ
  pub l3_shift : ℕ

-- What `memset(apic, 0, sizeof(*apic))` and `memset(&ci, 0, sizeof(ci))` leave.
abbrev pub zero_apic : ApicInfo
zero_apic = record {
  smt_mask = 0;
  smt_size = 0;
  core_mask = 0;
  core_smt_mask = 0;
  pkg_mask = 0;
  pkg_shift = 0;
  l2_shift = 0;
  l3_shift = 0;
}

abbrev pub zero_cache : Cacheinfo
zero_cache = record {
  detected = false;
  num_ways = 0;
  num_sets = 0;
  num_partitions = 0;
  line_size = 0;
  total_size = 0;
  way_size = 0;
}

-- `~x` on `uint32_t`, and `~(UINT32_MAX << shift)`.
abbrev pub not32 : ℕ → ℕ
not32 x = 2 ^ 32 - 1 - x

abbrev pub level_mask : ℕ → ℕ
level_mask shift = not32 (u32 ((2 ^ 32 - 1) * 2 ^ shift))

-- A loop that reads one sub-leaf after another comes to an end, or is cut off after its rounds.
pub data Walk (A : Type 0) : Type 0 where
  ended : A → Walk A
  unfinished : Walk A

-- What `detect_apic_core_masks` keeps: the masks, `core_reported` and `thread_reported`.
pub record Levels : Type 0 where
  pub apic : ApicInfo
  pub core_reported : Bool
  pub thread_reported : Bool

abbrev pub note_thread : ℕ → Levels → Levels
note_thread shift s = record s {
  apic = record s.apic { smt_mask = level_mask shift; smt_size = shift };
  thread_reported = true;
}

abbrev pub note_core : ℕ → Levels → Levels
note_core shift s = record s {
  apic = record s.apic {
    core_smt_mask = level_mask shift;
    pkg_shift = shift;
    pkg_mask = not32 (level_mask shift);
  };
  core_reported = true;
}

-- The body of the loop, for a sub-leaf that is valid.
abbrev pub note_level : CpuidOut → Levels → Levels
note_level leaf_b s =
    let type = leaf_b.ecx / 2 ^ 8 % 2 ^ 8 in
    let shift = leaf_b.eax % 2 ^ 5 in
    if type == 1 then note_thread shift s else if type == 2 then note_core shift s else s

-- What `detect_apic_cache_masks` keeps: `cache_level_shift`, `m_l2` and `m_l3`.
pub record Caches : Type 0 where
  pub cache_level_shift : List ℕ
  pub l2 : Cacheinfo
  pub l3 : Cacheinfo

-- The loop of `nearest_pow2`, which ends after 32 rounds, when `r` has become 0.
unfoldable pub doubling : ℕ → ℕ → ℕ → ℕ → ℕ
doubling zero n r p = p
doubling (suc rounds) n r p =
    let rest = doubling rounds n (u32 (r * 2)) (p + 1) in if leb n r then p else rest

unfoldable pub nearest_pow2 : ℕ → ℕ
unfolding doubling
nearest_pow2 n = if ltb n 2 then n else doubling 32 n 1 0

-- The fields of CPUID leaf 4.
abbrev pub cache_type : CpuidOut → ℕ
cache_type leaf4 = leaf4.eax % 2 ^ 5

abbrev pub cache_level : CpuidOut → ℕ
cache_level leaf4 = leaf4.eax / 2 ^ 5 % 2 ^ 3

abbrev pub sharing_id : CpuidOut → ℕ
sharing_id leaf4 = leaf4.eax / 2 ^ 14 % 2 ^ 12

abbrev pub way_bytes : CpuidOut → ℕ
way_bytes leaf4 =
    u32 ((leaf4.ebx / 2 ^ 12 % 2 ^ 10 + 1) * u32 (leaf4.ecx + 1) * (leaf4.ebx % 2 ^ 12 + 1))

abbrev pub cache_of : CpuidOut → Cacheinfo
cache_of leaf4 = record {
  detected = true;
  num_ways = leaf4.ebx / 2 ^ 22 + 1;
  num_sets = u32 (leaf4.ecx + 1);
  num_partitions = leaf4.ebx / 2 ^ 12 % 2 ^ 10 + 1;
  line_size = leaf4.ebx % 2 ^ 12 + 1;
  total_size = u32 (way_bytes leaf4 * (leaf4.ebx / 2 ^ 22 + 1));
  way_size = way_bytes leaf4;
}

abbrev pub note_cache : CpuidOut → Caches → Caches
note_cache leaf4 s =
    let level = cache_level leaf4 in
    record {
      cache_level_shift =
          if ltb level 4
          then set level (nearest_pow2 (sharing_id leaf4 + 1)) s.cache_level_shift
          else s.cache_level_shift;
      l2 = if level == 2 then cache_of leaf4 else s.l2;
      l3 = if level == 3 then cache_of leaf4 else s.l3;
    }

-- The processors: the number that `sysconf` returns, whether the task can be put on one and back
-- where it was, and what CPUID returns on each for a leaf and sub-leaf. `here` is the processor that
-- the task runs on at first.
pub record Processors : Type 0 where
  pub count : ℕ
  pub here : ℕ
  pub get_affinity : Bool
  pub set_affinity : ℕ → Bool
  pub restore_affinity : Bool
  pub cpuid : ℕ → ℕ → ℕ → CpuidOut

module _ (h : Processors) where
  -- `for (subleaf = 0; ; subleaf++)`, with `rounds` sub-leaves at most.
  unfoldable pub walk_levels : ℕ → ℕ → Levels → Walk Levels
  walk_levels zero subleaf s = unfinished
  walk_levels (suc rounds) subleaf s =
      let leaf_b = h.cpuid h.here 0xB subleaf in
      let rest = walk_levels rounds (subleaf + 1) (note_level leaf_b s) in
      if leaf_b.ebx == 0 then ended s else rest

  unfoldable pub walk_caches : ℕ → ℕ → Caches → Walk Caches
  walk_caches zero subleaf s = unfinished
  walk_caches (suc rounds) subleaf s =
      let leaf4 = h.cpuid h.here 0x4 subleaf in
      let rest = walk_caches rounds (subleaf + 1) (note_cache leaf4 s) in
      if cache_type leaf4 == 0 || leb 4 (cache_type leaf4) then ended s else rest

  -- What follows the loop of `detect_apic_core_masks`.
  unfoldable pub core_masks : Levels → Option ApicInfo
  core_masks s =
      if s.thread_reported
      then if s.core_reported
        then some (record s.apic { core_mask = bit_xor s.apic.core_smt_mask s.apic.smt_mask })
        else some (record s.apic {
          core_mask = 0;
          pkg_shift = s.apic.smt_size;
          pkg_mask = not32 s.apic.smt_mask;
        })
      else none

  unfoldable pub cache_masks : ApicInfo → Caches → Option ApicInfo
  cache_masks apic s =
      if get_or 0 2 s.cache_level_shift == 0 || get_or 0 1 s.cache_level_shift == 0
      then none
      else some (record apic {
        l2_shift = get_or 0 2 s.cache_level_shift;
        l3_shift =
            if get_or 0 3 s.cache_level_shift == 0
            then apic.pkg_shift
            else get_or 0 3 s.cache_level_shift;
      })

  -- The masks with the caches, from the two loops.
  abbrev pub with_caches : ApicInfo → Walk Caches → Walk (Option (ApicInfo × Caches))
  with_caches apic unfinished = unfinished
  with_caches apic (ended s) =
      ended (elim (cache_masks apic s) [ none ↦ none | some a ↦ some (a, s) ])

  abbrev pub with_levels : Walk Levels → Walk Caches → Walk (Option (ApicInfo × Caches))
  with_levels unfinished caches = unfinished
  with_levels (ended s) caches = elim (core_masks s) [
    | none ↦ ended none
    | some apic ↦ with_caches apic caches
  ]

  -- `detect_apic_masks`; each loop reads `rounds` sub-leaves at most.
  unfoldable pub detect_apic_masks : ℕ → Walk (Option (ApicInfo × Caches))
  unfolding walk_levels walk_caches
  detect_apic_masks rounds =
      with_levels
        (walk_levels rounds 0
          (record { apic = zero_apic; core_reported = false; thread_reported = false }))
        (walk_caches rounds 0
          (record { cache_level_shift = 0 ∷ 0 ∷ 0 ∷ 0 ∷ []; l2 = zero_cache; l3 = zero_cache }))

  -- The ids of a processor by its APIC id.
  abbrev pub located : ApicInfo → ℕ → Coreinfo
  located apic cpu =
      let apicid = (h.cpuid cpu 0xB 0).edx in
      record {
        lcore = cpu;
        socket = bit_and apicid apic.pkg_mask / 2 ^ apic.pkg_shift;
        l3_id = apicid / 2 ^ apic.l3_shift;
        l2_id = apicid / 2 ^ apic.l2_shift;
      }

  -- `detect_cpu`
  unfoldable pub detect_cpu : ApicInfo → ℕ → Option Coreinfo
  detect_cpu apic cpu = if h.set_affinity cpu then some (located apic cpu) else none

  -- The loop of `cpuinfo_build_topo`, with `rounds` processors left, from `i`.
  unfoldable pub detect_cpus : ApicInfo → ℕ → ℕ → List Coreinfo
  unfolding detect_cpu
  detect_cpus apic zero i = []
  detect_cpus apic (suc rounds) i =
      let rest = detect_cpus apic rounds (i + 1) in
      elim (detect_cpu apic i) [ none ↦ rest | some c ↦ c ∷ rest ]

  -- No core found is NULL, as in the source.
  abbrev pub non_zero : Caches → List Coreinfo → Option Cpuinfo
  non_zero s [] = none
  non_zero s (c ∷ cs) = some (record { l2 = s.l2; l3 = s.l3; cores = c ∷ cs })

  -- `granted` says whether the memory for the table is granted.
  abbrev pub build_from : Bool → Walk (Option (ApicInfo × Caches)) → Walk (Option Cpuinfo)
  build_from granted unfinished = unfinished
  build_from granted (ended none) = ended none
  build_from granted (ended (some (apic, caches))) =
      if granted && h.restore_affinity
      then ended (non_zero caches (detect_cpus apic h.count 0))
      else ended none

  unfoldable pub cpuinfo_build_topo : ℕ → Bool → Walk (Option Cpuinfo)
  unfolding detect_apic_masks detect_cpus
  cpuinfo_build_topo rounds granted =
      if not h.get_affinity || h.count == 0
      then ended none
      else build_from granted (detect_apic_masks rounds)
