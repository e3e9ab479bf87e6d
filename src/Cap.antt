-- ===== src/Cap.antt =====
-- The capabilities of lib/pqos.h, their queries in lib/utils.c (`pqos_cap_get_type` and its
-- callers) and `_pqos_cap_l3cdp_change` of lib/cap.c. The union of `struct pqos_capability` is a
-- data type that carries the `type` tag; `mem_size` fields describe memory only and are left out.
pub mod Query
pub mod Cdp
use multi_resource_isolation.Prelude.{
  ℕ, ◌*◌, ◌/◌, Bool, true, false, ◌&&◌, not, Option, none, some, List, [], ◌∷◌, if◌then◌else◌,
}
use multi_resource_isolation.Types.{Result, ok, err, Retval}

-- `PQOS_INTER_MSR` and `PQOS_INTER_OS`
pub data Interface : Type 0 where
  msr os : Interface

-- `enum pqos_mon_event`
pub data MonEvent : Type 0 where
  l3_occup lmem_bw tmem_bw rmem_bw reserved1 reserved2 llc_miss ipc : MonEvent

-- `struct pqos_monitor`
pub record Monitor : Type 0 where
  pub type : MonEvent
  pub max_rmid : ℕ
  pub scale_factor : ℕ
  pub os_support : Bool

-- `struct pqos_cap_mon`
pub record CapMon : Type 0 where
  pub max_rmid : ℕ
  pub l3_size : ℕ
  pub events : List Monitor

-- `struct pqos_cap_l3ca`
pub record CapL3ca : Type 0 where
  pub num_classes : ℕ
  pub num_ways : ℕ
  pub way_size : ℕ
  pub way_contention : ℕ
  pub cdp : Bool
  pub cdp_on : Bool

-- `struct pqos_cap_l2ca`
pub record CapL2ca : Type 0 where
  pub num_classes : ℕ
  pub num_ways : ℕ
  pub way_size : ℕ
  pub way_contention : ℕ

-- `struct pqos_cap_mba`
pub record CapMba : Type 0 where
  pub num_classes : ℕ
  pub throttle_max : ℕ
  pub throttle_step : ℕ
  pub is_linear : Bool

-- `enum pqos_cap_type`
pub data CapType : Type 0 where
  mon_type l3ca_type l2ca_type mba_type : CapType

-- The union `u`, with its tag.
pub data CapItem : Type 0 where
  mon_item : CapMon → CapItem
  l3ca_item : CapL3ca → CapItem
  l2ca_item : CapL2ca → CapItem
  mba_item : CapMba → CapItem

-- `struct pqos_capability`
pub record Capability : Type 0 where
  pub os_support : Bool
  pub u : CapItem

-- `struct pqos_cap`
pub record Cap : Type 0 where
  pub version : ℕ
  pub capabilities : List Capability

abbrev pub type_of : CapItem → CapType
type_of (mon_item c) = mon_type
type_of (l3ca_item c) = l3ca_type
type_of (l2ca_item c) = l2ca_type
type_of (mba_item c) = mba_type

abbrev pub same_type : CapType → CapType → Bool
same_type mon_type mon_type = true
same_type l3ca_type l3ca_type = true
same_type l2ca_type l2ca_type = true
same_type mba_type mba_type = true
same_type _ _ = false

-- The test that skips what the OS interface does not support.
abbrev pub hidden : Interface → Bool → Bool
hidden os os_support = not os_support
hidden msr os_support = false

pub type_in : Interface → CapType → List Capability → Result Capability
type_in interface type [] = err Retval.resource
type_in interface type (c ∷ cs) =
    if same_type (type_of c.u) type && not (hidden interface c.os_support)
    then ok c
    else type_in interface type cs

-- `pqos_cap_get_type`
unfoldable pub get_type : Interface → Cap → CapType → Result Capability
unfolding type_in
get_type interface cap type = type_in interface type cap.capabilities

abbrev pub same_event : MonEvent → MonEvent → Bool
same_event l3_occup l3_occup = true
same_event lmem_bw lmem_bw = true
same_event tmem_bw tmem_bw = true
same_event rmem_bw rmem_bw = true
same_event reserved1 reserved1 = true
same_event reserved2 reserved2 = true
same_event llc_miss llc_miss = true
same_event ipc ipc = true
same_event _ _ = false

pub event_in : Interface → MonEvent → List Monitor → Result Monitor
event_in interface event [] = err Retval.error
event_in interface event (m ∷ ms) =
    if same_event m.type event && not (hidden interface m.os_support)
    then ok m
    else event_in interface event ms

-- The members of the union. Another member than the tag's is undefined in C, and an error here;
-- `Cap.Query` shows that no caller reads one.
abbrev pub as_mon : Result Capability → Result CapMon
as_mon (err e) = err e
as_mon (ok c) = elim (c.u) [ mon_item m ↦ ok m | _ ↦ err Retval.error ]

abbrev pub as_l3ca : Result Capability → Result CapL3ca
as_l3ca (err e) = err e
as_l3ca (ok c) = elim (c.u) [ l3ca_item m ↦ ok m | _ ↦ err Retval.error ]

abbrev pub as_l2ca : Result Capability → Result CapL2ca
as_l2ca (err e) = err e
as_l2ca (ok c) = elim (c.u) [ l2ca_item m ↦ ok m | _ ↦ err Retval.error ]

abbrev pub as_mba : Result Capability → Result CapMba
as_mba (err e) = err e
as_mba (ok c) = elim (c.u) [ mba_item m ↦ ok m | _ ↦ err Retval.error ]

abbrev pub map_ok : {A B : Type 0} → (A → B) → Result A → Result B
map_ok f (ok a) = ok (f a)
map_ok f (err e) = err e

-- `pqos_cap_get_event`
unfoldable pub get_event : Interface → Cap → MonEvent → Result Monitor
unfolding get_type event_in
get_event interface cap event = elim (as_mon (get_type interface cap mon_type)) [
  | ok mon ↦ event_in interface event mon.events
  | err e ↦ err e
]

-- `pqos_l3ca_get_cos_num`, `pqos_l2ca_get_cos_num`, `pqos_mba_get_cos_num`
unfoldable pub l3ca_get_cos_num : Interface → Cap → Result ℕ
unfolding get_type
l3ca_get_cos_num interface cap =
    map_ok (λ c. c.num_classes) (as_l3ca (get_type interface cap l3ca_type))

unfoldable pub l2ca_get_cos_num : Interface → Cap → Result ℕ
unfolding get_type
l2ca_get_cos_num interface cap =
    map_ok (λ c. c.num_classes) (as_l2ca (get_type interface cap l2ca_type))

unfoldable pub mba_get_cos_num : Interface → Cap → Result ℕ
unfolding get_type
mba_get_cos_num interface cap =
    map_ok (λ c. c.num_classes) (as_mba (get_type interface cap mba_type))

-- `pqos_l3ca_cdp_enabled`: CDP support and whether CDP is on.
unfoldable pub l3ca_cdp_enabled : Interface → Cap → Result (Bool × Bool)
unfolding get_type
l3ca_cdp_enabled interface cap =
    map_ok (λ c. (c.cdp, c.cdp_on)) (as_l3ca (get_type interface cap l3ca_type))

-- The update that `_pqos_cap_l3cdp_change` makes to the L3 entry.
abbrev pub switch_cdp : Bool → Bool → CapL3ca → CapL3ca
switch_cdp false true c = record c { cdp_on = true; num_classes = c.num_classes / 2 }
switch_cdp true false c = record c { cdp_on = false; num_classes = c.num_classes * 2 }
switch_cdp true true c = c
switch_cdp false false c = c

-- Only the first L3 entry is updated.
pub switch_first : Bool → Bool → List Capability → List Capability
switch_first prev next [] = []
switch_first prev next (c ∷ cs) = elim (c.u) [
  | l3ca_item l ↦ record c { u = l3ca_item (switch_cdp prev next l) } ∷ cs
  | _ ↦ c ∷ switch_first prev next cs
]

-- `_pqos_cap_l3cdp_change`
unfoldable pub l3cdp_change : Bool → Bool → Cap → Cap
unfolding switch_first
l3cdp_change prev next cap = record cap { capabilities = switch_first prev next cap.capabilities }
