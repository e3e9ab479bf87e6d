-- ===== src/Discover.antt =====
-- The discovery of capabilities in lib/cap.c: `get_cache_info` and the functions `discover_*` with
-- what they call, from CPUID and the registers. `granted` says whether `malloc` gives the memory of
-- a capability.
pub mod Monitoring
pub mod L3
use multi_resource_isolation.Prelude.{
  ℕ, zero, suc, ◌+◌, ◌-◌, ◌*◌, ◌/◌, ◌%◌, ◌^◌, Bool, true, false, not, ◌||◌, ◌&&◌, ltb, ◌==◌,
  if◌then◌else◌, u32, List, [], ◌∷◌, ◌++◌, length, Option, none, some,
}
use multi_resource_isolation.Types.{
  Result, ok, err, Retval, Action, pure, lift, fail_if, ◌>>=◌, ◌>>◌,
}
use multi_resource_isolation.Msr.{Msr, read_msr}
use multi_resource_isolation.Cpu.{Cacheinfo, Coreinfo, Cpuinfo, get_sockets, get_one_core}
use multi_resource_isolation.Cap.{
  MonEvent, l3_occup, lmem_bw, tmem_bw, rmem_bw, llc_miss, ipc, Monitor, CapMon, CapL3ca, CapL2ca,
  CapMba, Capability, Cap, CapItem, mon_item, l3ca_item, l2ca_item, mba_item, map_ok,
}
use multi_resource_isolation.Alloc.{msr_l3_qos_cfg, msr_l3ca_mask_start}
use multi_resource_isolation.Info.{CpuidOut}

-- Bit `k` of a register, as a condition.
abbrev pub bit_set : ℕ → ℕ → Bool
bit_set k x = x / 2 ^ k % 2 == 1

-- `get_cache_info`, which here hands out both numbers: the number of ways and the size.
unfoldable pub get_cache_info : Cacheinfo → Result (ℕ × ℕ)
get_cache_info info =
    if info.detected then ok (info.num_ways, info.total_size) else err Retval.resource

-- `if (ret != PQOS_RETVAL_OK) return PQOS_RETVAL_ERROR;` after `get_cache_info`.
abbrev pub size_or_error : Result (ℕ × ℕ) → Result ℕ
size_or_error (ok x) = ok x.1
size_or_error (err e) = err Retval.error

-- `add_monitoring_event`: an event for which there is no room is dropped.
abbrev pub add_monitoring_event : MonEvent → ℕ → ℕ → ℕ → CapMon → CapMon
add_monitoring_event type max_rmid scale_factor max_num_events mon =
    if ltb (length mon.events) max_num_events
    then record mon {
      events =
          mon.events
          ++ (record {
            type = type;
            max_rmid = max_rmid;
            scale_factor = scale_factor;
            os_support = false;
          }
              ∷ []);
    }
    else mon

abbrev pub add_if : Bool → MonEvent → ℕ → ℕ → ℕ → CapMon → CapMon
add_if true type max_rmid scale_factor max_num_events mon =
    add_monitoring_event type max_rmid scale_factor max_num_events mon
add_if false type max_rmid scale_factor max_num_events mon = mon

-- What CPUID says of the events: those of leaf 0xF and the counters of leaf 0xA.
abbrev pub has_occupancy : CpuidOut → Bool
has_occupancy leaf_f1 = bit_set 0 leaf_f1.edx

abbrev pub has_total : CpuidOut → Bool
has_total leaf_f1 = bit_set 1 leaf_f1.edx

abbrev pub has_local : CpuidOut → Bool
has_local leaf_f1 = bit_set 2 leaf_f1.edx

abbrev pub has_ipc : CpuidOut → Bool
has_ipc leaf_a = leaf_a.ebx % 2 ^ 2 == 0 && ltb 1 (leaf_a.edx % 2 ^ 5)

abbrev pub has_miss : CpuidOut → Bool
has_miss leaf_a = ltb 1 (leaf_a.eax / 2 ^ 8 % 2 ^ 8)

abbrev pub one_if : Bool → ℕ
one_if b = if b then 1 else 0

-- `num_events`, before and after the events of the performance counters.
abbrev pub rdt_events : CpuidOut → ℕ
rdt_events leaf_f1 =
    one_if (has_occupancy leaf_f1)
    + one_if (has_total leaf_f1)
    + one_if (has_local leaf_f1)
    + one_if (has_total leaf_f1 && has_local leaf_f1)

abbrev pub num_events : CpuidOut → CpuidOut → ℕ
num_events leaf_f1 leaf_a = rdt_events leaf_f1 + one_if (has_ipc leaf_a) + one_if (has_miss leaf_a)

-- The table of events, filled in.
unfoldable pub fill_events : CpuidOut → CpuidOut → CapMon → CapMon
fill_events leaf_f1 leaf_a mon =
    let n = num_events leaf_f1 leaf_a in
    let rmids = u32 (leaf_f1.ecx + 1) in
    add_if (has_miss leaf_a) llc_miss 0 0 n (
      add_if (has_ipc leaf_a) ipc 0 0 n (
        add_if (has_total leaf_f1 && has_local leaf_f1) rmem_bw rmids leaf_f1.ebx n (
          add_if (has_local leaf_f1) lmem_bw rmids leaf_f1.ebx n (
            add_if (has_total leaf_f1) tmem_bw rmids leaf_f1.ebx n
              (add_if (has_occupancy leaf_f1) l3_occup rmids leaf_f1.ebx n mon)))))

abbrev pub also : {A B : Type 0} → Result A → (A → Result B) → Result B
also (ok a) f = f a
also (err e) f = err e

-- `lcpuid(leaf, subleaf, &out)`
abbrev pub Cpuid : Type 0
Cpuid = ℕ → ℕ → CpuidOut

unfoldable pub discover_monitoring : Cpuid → Bool → Cpuinfo → Result CapMon
unfolding get_cache_info fill_events
discover_monitoring cpuid granted cpu =
    if not (bit_set 12 (cpuid 0x7 0).ebx) || not (bit_set 1 (cpuid 0xF 0).edx)
    then err Retval.resource
    else also (size_or_error (get_cache_info cpu.l3)) (λ l3_size.
      if rdt_events (cpuid 0xF 1) == 0
      then err Retval.error
      else if not granted
      then err Retval.resource
      else ok (
          fill_events (cpuid 0xF 1) (cpuid 0xA 0)
            (record { max_rmid = u32 ((cpuid 0xF 0).ebx + 1); l3_size = l3_size; events = [] })))

-- The counts of `cdp_is_enabled`.
abbrev pub counted : ℕ → ℕ × ℕ → ℕ × ℕ
counted reg (enabled_num, disabled_num) =
    if bit_set 0 reg then (enabled_num + 1, disabled_num) else (enabled_num, disabled_num + 1)

abbrev pub consistent : ℕ × ℕ → Result Bool
consistent (enabled_num, disabled_num) =
    if ltb 0 disabled_num && ltb 0 enabled_num then err Retval.error else ok (ltb 0 enabled_num)

abbrev pub list_or_resource : {A : Type 0} → Option A → Result A
list_or_resource none = err Retval.resource
list_or_resource (some a) = ok a

-- Does one text stand in another? What `strstr` tells its callers here.
unfoldable pub starts_with : List ℕ → List ℕ → Bool
starts_with [] text = true
starts_with (c ∷ cs) [] = false
starts_with (c ∷ cs) (d ∷ text) = c == d && starts_with cs text

unfoldable pub contains : List ℕ → List ℕ → Bool
unfolding starts_with
contains str [] = starts_with str []
contains str (d ∷ text) = starts_with str (d ∷ text) || contains str text

-- `for (i = 0; i < DIM(supported_brands); i++)`
unfoldable pub any_brand : List ℕ → List (List ℕ) → Bool
unfolding contains
any_brand brand_str [] = false
any_brand brand_str (b ∷ brands) = contains b brand_str || any_brand brand_str brands

-- The bytes of a register as they lie in memory, lowest first.
abbrev pub bytes_of : ℕ → List ℕ
bytes_of x = (x % 2 ^ 8) ∷ (x / 2 ^ 8 % 2 ^ 8) ∷ (x / 2 ^ 16 % 2 ^ 8) ∷ (x / 2 ^ 24 % 2 ^ 8) ∷ []

abbrev pub leaf_bytes : CpuidOut → List ℕ
leaf_bytes res = bytes_of res.eax ++ (bytes_of res.ebx ++ (bytes_of res.ecx ++ bytes_of res.edx))

-- A C string ends at its first 0.
unfoldable pub c_string : List ℕ → List ℕ
c_string [] = []
c_string (c ∷ cs) = if c == 0 then [] else c ∷ c_string cs

abbrev pub zero_l3ca : CapL3ca
zero_l3ca = record {
  num_classes = 0;
  num_ways = 0;
  way_size = 0;
  way_contention = 0;
  cdp = false;
  cdp_on = false;
}

-- `supported_brands` is a table of texts, here an argument.
unfoldable pub discover_alloc_l3_brandstr : Cpuid → List (List ℕ) → CapL3ca → Result CapL3ca
unfolding any_brand c_string
discover_alloc_l3_brandstr cpuid supported_brands cap =
    if ltb (cpuid 0x80000000 0).eax 0x80000004
    then err Retval.error
    else if any_brand
        (c_string (
          leaf_bytes (cpuid 0x80000002 0)
          ++ (leaf_bytes (cpuid 0x80000003 0) ++ leaf_bytes (cpuid 0x80000004 0))))
        supported_brands
    then ok (record cap { num_classes = 4 })
    else err Retval.resource

module _ (m : Msr) where
  -- The loop of `cdp_is_enabled` over the sockets.
  unfoldable pub count_cdp : Cpuinfo → List ℕ → ℕ × ℕ → Action m.State (ℕ × ℕ)
  count_cdp cpu [] counts = pure counts
  count_cdp cpu (socket ∷ sockets) counts = do
    core ← lift (get_one_core cpu socket)
    reg ← read_msr m core msr_l3_qos_cfg
    count_cdp cpu sockets (counted reg counts)

  -- `sockets` says whether the memory for the list of sockets is granted.
  unfoldable pub cdp_is_enabled : Bool → Cpuinfo → Action m.State Bool
  cdp_is_enabled sockets cpu = do
    list ← lift (list_or_resource (get_sockets sockets cpu))
    counts ← count_cdp cpu list (0, 0)
    lift (consistent counts)

  -- The loop of `discover_alloc_l3_probe`, with `rounds` registers left, from register `i`.
  unfoldable pub probe_from : ℕ → ℕ → ℕ → m.State → ℕ × m.State
  probe_from lcore zero i s = (i, s)
  probe_from lcore (suc rounds) i s =
      let (v, s') = m.read lcore (msr_l3ca_mask_start + i) s in
      let rest = probe_from lcore rounds (i + 1) s' in elim v [ none ↦ (i, s') | some x ↦ rest ]

  abbrev pub first_lcore : List Coreinfo → ℕ
  first_lcore [] = 0
  first_lcore (c ∷ cs) = c.lcore

  -- The core table is not empty.
  unfoldable pub discover_alloc_l3_probe : Cpuinfo → CapL3ca → Action m.State CapL3ca
  discover_alloc_l3_probe cpu cap s =
      let (i, s') = probe_from (first_lcore cpu.cores) 128 0 s in
      (if i == 0 then err Retval.resource else ok (record cap { num_classes = i }), s')

  abbrev pub cdp_found : CapL3ca → Bool → CapL3ca
  cdp_found cap true = record cap { cdp_on = true; num_classes = cap.num_classes / 2 }
  cdp_found cap false = cap

  abbrev pub l3_of_leaf : CpuidOut → CapL3ca
  l3_of_leaf res = record {
    num_classes = u32 (res.edx + 1);
    num_ways = u32 (res.eax + 1);
    way_size = 0;
    way_contention = res.ebx;
    cdp = bit_set 2 res.ecx;
    cdp_on = false;
  }

  unfoldable pub with_cdp : Bool → Bool → Cpuinfo → CapL3ca → Action m.State CapL3ca
  with_cdp false sockets cpu cap = pure cap
  with_cdp true sockets cpu cap = do
    cdp_on ← cdp_is_enabled sockets cpu
    pure (cdp_found cap cdp_on)

  unfoldable pub discover_alloc_l3_cpuid : Cpuid → Bool → Cpuinfo → Action m.State CapL3ca
  discover_alloc_l3_cpuid cpuid sockets cpu = do
    fail_if (not (bit_set 1 (cpuid 0x10 0).ebx)) Retval.resource
    with_cdp (bit_set 2 (cpuid 0x10 1).ecx) sockets cpu (l3_of_leaf (cpuid 0x10 1))

  -- `if (cap->num_ways > 0) cap->way_size = l3_size / cap->num_ways;`
  abbrev pub sized : ℕ → CapL3ca → CapL3ca
  sized l3_size cap = record cap {
    way_size = if ltb 0 cap.num_ways then l3_size / cap.num_ways else cap.way_size;
  }

  -- `if (ret != PQOS_RETVAL_OK) ret = discover_alloc_l3_probe(cap, cpu);`
  abbrev pub or_else : Result CapL3ca → Action m.State CapL3ca → Action m.State CapL3ca
  or_else (ok cap) next s = (ok cap, s)
  or_else (err e) next s = next s

  unfoldable pub discover_alloc_l3 :
      Cpuid → List (List ℕ) → Bool → Bool → Cpuinfo → Action m.State CapL3ca
  discover_alloc_l3 cpuid supported_brands granted sockets cpu =
      if not granted
      then lift (err Retval.resource)
      else if bit_set 15 (cpuid 0x7 0).ebx
      then (do
        cap ← discover_alloc_l3_cpuid cpuid sockets cpu
        info ← lift (get_cache_info cpu.l3)
        pure (sized info.1 cap))
      else (do
        cap ←
            or_else (discover_alloc_l3_brandstr cpuid supported_brands zero_l3ca)
              (discover_alloc_l3_probe cpu zero_l3ca)
        info ← lift (get_cache_info cpu.l3)
        pure (sized info.1 (record cap { num_ways = info.0 })))

-- The tests that `discover_alloc_l2` and `discover_alloc_mba` begin with.
abbrev pub resource_missing : Cpuid → ℕ → Bool → Bool
resource_missing cpuid id granted =
    not granted || (not (bit_set 15 (cpuid 0x7 0).ebx) || not (bit_set id (cpuid 0x10 0).ebx))

abbrev pub l2_of_leaf : CpuidOut → ℕ → CapL2ca
l2_of_leaf res l2_size = record {
  num_classes = u32 (res.edx + 1);
  num_ways = u32 (res.eax + 1);
  way_size = if ltb 0 (u32 (res.eax + 1)) then l2_size / u32 (res.eax + 1) else 0;
  way_contention = res.ebx;
}

unfoldable pub discover_alloc_l2 : Cpuid → Bool → Cpuinfo → Result CapL2ca
unfolding get_cache_info
discover_alloc_l2 cpuid granted cpu =
    if resource_missing cpuid 2 granted
    then err Retval.resource
    else also (size_or_error (get_cache_info cpu.l2))
        (λ l2_size. ok (l2_of_leaf (cpuid 0x10 2) l2_size))

-- `100 - cap->throttle_max` is unsigned.
unfoldable pub discover_alloc_mba : Cpuid → Bool → Result CapMba
discover_alloc_mba cpuid granted =
    let res = cpuid 0x10 3 in
    let throttle_max = res.eax % 2 ^ 12 + 1 in
    if resource_missing cpuid 3 granted || not (bit_set 2 res.ecx)
    then err Retval.resource
    else ok (record {
      num_classes = res.edx % 2 ^ 16 + 1;
      throttle_max = throttle_max;
      throttle_step = u32 (100 + 2 ^ 32 - throttle_max);
      is_linear = true;
    })

-- The `switch` after each discovery: an entry, none where the technology is missing, or an end.
abbrev pub optional : {A : Type 0} → Result A → Result (Option A)
optional (ok a) = ok (some a)
optional (err Retval.resource) = ok none
optional (err e) = err Retval.error

abbrev pub entry_of : {A : Type 0} → (A → CapItem) → Option A → List Capability
entry_of f none = []
entry_of f (some a) = record { os_support = false; u = f a } ∷ []

-- PQOS_VERSION
abbrev pub pqos_version : ℕ
pqos_version = 10200

-- `if (sz == 0)`, and the memory of the table.
abbrev pub table_of : Bool → List Capability → Result Cap
table_of granted [] = err Retval.error
table_of granted (c ∷ cs) =
    if granted
    then ok (record { version = pqos_version; capabilities = c ∷ cs })
    else err Retval.error

-- Which blocks of memory are granted: the four capabilities, the list of sockets, and the table.
pub record Blocks : Type 0 where
  pub mon : Bool
  pub l3ca : Bool
  pub l2ca : Bool
  pub mba : Bool
  pub sockets : Bool
  pub table : Bool

module _ (m : Msr) where
  abbrev pub optionally : {A : Type 0} → Action m.State A → Action m.State (Option A)
  optionally x s = let (r, s') = x s in (optional r, s')

  unfoldable pub discover_capabilities :
      Cpuid → List (List ℕ) → Blocks → Cpuinfo → Action m.State Cap
  discover_capabilities cpuid supported_brands b cpu = do
    det_mon ← lift (optional (discover_monitoring cpuid b.mon cpu))
    det_l3ca ← optionally (discover_alloc_l3 m cpuid supported_brands b.l3ca b.sockets cpu)
    det_l2ca ← lift (optional (discover_alloc_l2 cpuid b.l2ca cpu))
    det_mba ← lift (optional (discover_alloc_mba cpuid b.mba))
    lift (
        table_of b.table (
          entry_of mon_item det_mon
          ++ (entry_of l3ca_item det_l3ca
              ++ (entry_of l2ca_item det_l2ca ++ entry_of mba_item det_mba))))
