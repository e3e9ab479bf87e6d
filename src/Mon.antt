-- ===== src/Mon.antt =====
-- lib/monitoring.c: monitoring through the MSR interface. A child module for each part; this file has
-- the groups of lib/pqos.h, the event masks, and what the parts share.
pub mod Assoc
pub mod Rmid
pub mod Perf
pub mod Start
pub mod Poll
use multi_resource_isolation.Prelude.{
  ℕ, ◌+◌, ◌^◌, Bool, true, false, not, bit_and, ◌==◌, List, [], Option, none, some,
}
use multi_resource_isolation.Cap.{
  MonEvent, l3_occup, lmem_bw, tmem_bw, rmem_bw, reserved1, reserved2, llc_miss, ipc,
}

-- The values of `enum pqos_mon_event`, of which an `event` argument is a mask.
abbrev pub event_value : MonEvent → ℕ
event_value l3_occup = 1
event_value lmem_bw = 2
event_value tmem_bw = 4
event_value rmem_bw = 8
event_value reserved1 = 0x1000
event_value reserved2 = 0x2000
event_value llc_miss = 0x4000
event_value ipc = 0x8000

-- `event & mask`, as a condition.
abbrev pub has : ℕ → ℕ → Bool
has event mask = not (bit_and event mask == 0)

-- `struct pqos_mon_poll_ctx`
pub record PollCtx : Type 0 where
  pub lcore : ℕ
  pub cluster : ℕ
  pub rmid : ℕ

-- A `double`: 0.0, or the quotient of two numbers, which is not evaluated.
pub data Ratio : Type 0 where
  none_yet : Ratio
  quotient : ℕ → ℕ → Ratio

-- The fields of `struct pqos_event_values` that the library works on; those on processor time,
-- memory and threads are the application's.
pub record EventValues : Type 0 where
  pub llc : ℕ
  pub mbm_local : ℕ
  pub mbm_total : ℕ
  pub mbm_remote : ℕ
  pub mbm_local_delta : ℕ
  pub mbm_total_delta : ℕ
  pub mbm_remote_delta : ℕ
  pub ipc_retired : ℕ
  pub ipc_retired_delta : ℕ
  pub ipc_retired_pid : ℕ
  pub ipc_retired_delta_pid : ℕ
  pub ipc_unhalted : ℕ
  pub ipc_unhalted_delta : ℕ
  pub ipc : Ratio
  pub llc_misses : ℕ
  pub llc_misses_delta : ℕ
  pub fd_ins : ℕ

-- `struct pqos_mon_data`, without the part on tasks, which the MSR interface does not use. A table
-- and its length are one list, empty where the pointer is NULL; `valid` is the comparison with
-- GROUP_VALID_MARKER.
pub record MonData : Type 0 where
  pub valid : Bool
  pub event : ℕ
  pub context : ℕ
  pub values : EventValues
  pub poll_ctx : List PollCtx
  pub cores : List ℕ
  pub valid_mbm_read : Bool

-- What `memset(group, 0, sizeof(*group))` leaves.
abbrev pub zero_values : EventValues
zero_values = record {
  llc = 0;
  mbm_local = 0;
  mbm_total = 0;
  mbm_remote = 0;
  mbm_local_delta = 0;
  mbm_total_delta = 0;
  mbm_remote_delta = 0;
  ipc_retired = 0;
  ipc_retired_delta = 0;
  ipc_retired_pid = 0;
  ipc_retired_delta_pid = 0;
  ipc_unhalted = 0;
  ipc_unhalted_delta = 0;
  ipc = none_yet;
  llc_misses = 0;
  llc_misses_delta = 0;
  fd_ins = 0;
}

abbrev pub zero_group : MonData
zero_group = record {
  valid = false;
  event = 0;
  context = 0;
  values = zero_values;
  poll_ctx = [];
  cores = [];
  valid_mbm_read = false;
}
