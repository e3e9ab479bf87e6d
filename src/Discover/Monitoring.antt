-- ===== src/Discover/Monitoring.antt =====
-- The table of events that `discover_monitoring` builds.
use multi_resource_isolation.Prelude.{
  ℕ, ◌+◌, ◌≤◌, ◌≡◌, refl, sym, ap, ◌∙◌, Bool, true, false, not, ◌||◌, ◌&&◌, ltb, ◌==◌, arith,
  if◌then◌else◌, u32, List, [], ◌∷◌, ◌++◌, length, Bool-cases, inl, inr,
}
use multi_resource_isolation.Types.{Result, ok, err, Retval}
use multi_resource_isolation.Types.Bind.{ok_same}
use multi_resource_isolation.Cpu.{Cacheinfo, Cpuinfo}
use multi_resource_isolation.Cap.{
  MonEvent, l3_occup, lmem_bw, tmem_bw, rmem_bw, llc_miss, ipc, Monitor, CapMon,
}
use multi_resource_isolation.Info.{CpuidOut}
use multi_resource_isolation.Discover.{
  bit_set, get_cache_info, size_or_error, add_if, has_occupancy, has_total, has_local, has_ipc,
  has_miss, one_if, rdt_events, num_events, fill_events, also, Cpuid, discover_monitoring,
}

-- The events of a table, and one event where it is there.
abbrev pub types : List Monitor → List MonEvent
types [] = []
types (x ∷ xs) = x.type ∷ types xs

abbrev pub pick : Bool → MonEvent → List MonEvent
pick b type = if b then type ∷ [] else []

types-snoc : (xs : List Monitor) (x : Monitor) → types (xs ++ (x ∷ [])) ≡ types xs ++ (x.type ∷ [])
types-snoc [] x = refl
types-snoc (y ∷ xs) x = ap (λ ts. y.type ∷ ts) (types-snoc xs x)

length-snoc : (xs : List Monitor) (x : Monitor) → length (xs ++ (x ∷ [])) ≡ length xs + 1
length-snoc [] x = refl
length-snoc (y ∷ xs) x = let rest = length-snoc xs x in omega arith

no_more : (xs : List MonEvent) → xs ≡ xs ++ []
no_more [] = refl
no_more (x ∷ xs) = ap (λ ts. x ∷ ts) (no_more xs)

-- With room for it, an event that is there is added at the end.
record Added (b : Bool) (type : MonEvent) (mon mon' : CapMon) : Type 0 where
  types : types mon'.events ≡ types mon.events ++ pick b type
  length : length mon'.events ≡ length mon.events + one_if b
  l3_size : mon'.l3_size ≡ mon.l3_size
  max_rmid : mon'.max_rmid ≡ mon.max_rmid

add_if_lem :
    (b : Bool) (type : MonEvent) (rmids scale n : ℕ) (mon : CapMon)
    → length mon.events + one_if b ≤ n
    → Added b type mon (add_if b type rmids scale n mon)
add_if_lem false type rmids scale n mon room = record {
  types = no_more (types mon.events);
  length = omega arith;
  l3_size = refl;
  max_rmid = refl;
}
add_if_lem true type rmids scale n mon room =
    let fits : ltb (length mon.events) n ≡ true = ground arith in
    let entry : Monitor = record {
      type = type;
      max_rmid = rmids;
      scale_factor = scale;
      os_support = false;
    } in
    rw fits (record {
      types = types-snoc mon.events entry;
      length = length-snoc mon.events entry;
      l3_size = refl;
      max_rmid = refl;
    })

-- The events that CPUID reports, in the order of the code.
abbrev pub reported : CpuidOut → CpuidOut → List MonEvent
reported leaf_f1 leaf_a =
    (((((pick (has_occupancy leaf_f1) l3_occup ++ pick (has_total leaf_f1) tmem_bw)
            ++ pick (has_local leaf_f1) lmem_bw)
          ++ pick (has_total leaf_f1 && has_local leaf_f1) rmem_bw)
        ++ pick (has_ipc leaf_a) ipc)
      ++ pick (has_miss leaf_a) llc_miss)

fill_events_lem :
    (leaf_f1 leaf_a : CpuidOut) (mon : CapMon)
    → mon.events ≡ []
    → let mon' = fill_events leaf_f1 leaf_a mon in
      (types mon'.events ≡ reported leaf_f1 leaf_a)
      × (length mon'.events ≡ num_events leaf_f1 leaf_a)
      × (mon'.l3_size ≡ mon.l3_size)
      × (mon'.max_rmid ≡ mon.max_rmid)
unfolding fill_events
fill_events_lem f1 a mon none_yet =
    let n = num_events f1 a in
    let r = u32 (f1.ecx + 1) in
    let k = f1.ebx in
    let empty : length mon.events ≡ 0 = ap (λ (xs : List Monitor). length xs) none_yet in
    let m1 = add_if (has_occupancy f1) l3_occup r k n mon in
    let a1 = add_if_lem (has_occupancy f1) l3_occup r k n mon (omega arith) in
    let m2 = add_if (has_total f1) tmem_bw r k n m1 in
    let l1 = a1.length in
    let a2 = add_if_lem (has_total f1) tmem_bw r k n m1 (omega arith) in
    let m3 = add_if (has_local f1) lmem_bw r k n m2 in
    let l2 = a2.length in
    let a3 = add_if_lem (has_local f1) lmem_bw r k n m2 (omega arith) in
    let m4 = add_if (has_total f1 && has_local f1) rmem_bw r k n m3 in
    let l3 = a3.length in
    let a4 = add_if_lem (has_total f1 && has_local f1) rmem_bw r k n m3 (omega arith) in
    let m5 = add_if (has_ipc a) ipc 0 0 n m4 in
    let l4 = a4.length in
    let a5 = add_if_lem (has_ipc a) ipc 0 0 n m4 (omega arith) in
    let l5 = a5.length in
    let a6 = add_if_lem (has_miss a) llc_miss 0 0 n m5 (omega arith) in
    let l6 = a6.length in
    let start : types mon.events ≡ [] = ap types none_yet in
    (
      a6.types
          ∙ ap (λ ts. ts ++ pick (has_miss a) llc_miss)
              (a5.types
                ∙ ap (λ ts. ts ++ pick (has_ipc a) ipc)
                    (a4.types
                      ∙ ap (λ ts. ts ++ pick (has_total f1 && has_local f1) rmem_bw)
                          (a3.types
                            ∙ ap (λ ts. ts ++ pick (has_local f1) lmem_bw)
                                (a2.types
                                  ∙ ap (λ ts. ts ++ pick (has_total f1) tmem_bw)
                                      (a1.types
                                        ∙ ap (λ ts. ts ++ pick (has_occupancy f1) l3_occup)
                                            start))))),
      omega arith,
      a6.l3_size ∙ a5.l3_size ∙ a4.l3_size ∙ a3.l3_size ∙ a2.l3_size ∙ a1.l3_size,
      a6.max_rmid ∙ a5.max_rmid ∙ a4.max_rmid ∙ a3.max_rmid ∙ a2.max_rmid ∙ a1.max_rmid,
    )

-- The last steps of `discover_monitoring`.
module _ (cpuid : Cpuid) (granted : Bool) where
  abbrev filled : ℕ → CapMon
  filled l3_size =
      fill_events (cpuid 0xF 1) (cpuid 0xA 0)
        (record { max_rmid = u32 ((cpuid 0xF 0).ebx + 1); l3_size = l3_size; events = [] })

  abbrev with_size : ℕ → Result CapMon
  with_size l3_size =
      if rdt_events (cpuid 0xF 1) == 0
      then err Retval.error
      else if not granted
      then err Retval.resource
      else ok (filled l3_size)

  with_size_ok : (l3_size : ℕ) {mon : CapMon} → with_size l3_size ≡ ok mon → mon ≡ filled l3_size
  with_size_ok l3_size e = elim (Bool-cases (rdt_events (cpuid 0xF 1) == 0)) [
    | inl nothing ↦ absurd (let bad : err Retval.error ≡ ok _ = rw nothing at e in cc)
    | inr some_event ↦ by_memory granted (rw some_event at e)
  ]
    where
      by_memory :
          (b : Bool) {mon : CapMon}
          → (if not b then err Retval.resource else ok (filled l3_size)) ≡ ok mon
          → mon ≡ filled l3_size
      by_memory true h = sym (ok_same h)
      by_memory false h = cc

  sized_ok :
      (info : Cacheinfo) {mon : CapMon}
      → also (size_or_error (get_cache_info info)) with_size ≡ ok mon
      → (info.detected ≡ true) × (mon ≡ filled info.total_size)
  unfolding get_cache_info
  sized_ok info {mon} e = elim (Bool-cases info.detected) [
    | inl found ↦ (found, with_size_ok info.total_size {mon = mon} (rw found at e))
    | inr missing ↦ absurd (let bad : err Retval.error ≡ ok mon = rw missing at e in cc)
  ]

-- Where monitoring is discovered, the table has exactly the events that CPUID reports, in the
-- order of the code, and none was dropped for want of room; remote bandwidth is there where total
-- and local are; the size is that of the L3 cache, which was detected.
pub discover_monitoring_lem :
    (cpuid : Cpuid) (granted : Bool) (cpu : Cpuinfo) {mon : CapMon}
    → discover_monitoring cpuid granted cpu ≡ ok mon
    → (types mon.events ≡ reported (cpuid 0xF 1) (cpuid 0xA 0))
      × (length mon.events ≡ num_events (cpuid 0xF 1) (cpuid 0xA 0))
      × (mon.max_rmid ≡ u32 ((cpuid 0xF 0).ebx + 1))
      × (cpu.l3.detected ≡ true)
      × (mon.l3_size ≡ cpu.l3.total_size)
unfolding discover_monitoring
discover_monitoring_lem cpuid granted cpu {mon} e =
    elim (Bool-cases (not (bit_set 12 (cpuid 0x7 0).ebx) || not (bit_set 1 (cpuid 0xF 0).edx))) [
      | inl missing ↦ absurd (let bad : err Retval.resource ≡ ok mon = rw missing at e in cc)
      | inr there ↦
          let (found, same) = sized_ok cpuid granted cpu.l3 {mon = mon} (rw there at e) in
          let (events, size, l3, rmids) =
            fill_events_lem (cpuid 0xF 1) (cpuid 0xA 0)
              (record {
                max_rmid = u32 ((cpuid 0xF 0).ebx + 1);
                l3_size = cpu.l3.total_size;
                events = [];
              })
              refl in
          (
            ap (λ (x : CapMon). types x.events) same ∙ events,
            ap (λ (x : CapMon). length x.events) same ∙ size,
            ap (λ (x : CapMon). x.max_rmid) same ∙ rmids,
            found,
            ap (λ (x : CapMon). x.l3_size) same ∙ l3,
          )
    ]
