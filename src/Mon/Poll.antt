-- ===== src/Mon/Poll.antt =====
-- Reading the counters in lib/monitoring.c: `mon_read`, `pqos_core_poll` and `hw_mon_poll`.
pub mod Delta
pub mod Bandwidth
use multi_resource_isolation.Prelude.{
  ℕ, zero, suc, ◌+◌, ◌-◌, ◌*◌, ◌^◌, Bool, true, false, not, ◌||◌, bit_and, bit_or, ltb, ◌==◌,
  if◌then◌else◌, u64, List, [], ◌∷◌, Option, none, some,
}
use multi_resource_isolation.Types.{
  Retval, Result, ok, err, Action, pure, lift, fail_if, ◌>>=◌, ◌>>◌,
}
use multi_resource_isolation.Msr.{Msr, read_msr, write_msr}
use multi_resource_isolation.Cap.{
  MonEvent, l3_occup, lmem_bw, tmem_bw, rmem_bw, llc_miss, ipc, get_event,
}
use multi_resource_isolation.Alloc.{Platform}
use multi_resource_isolation.Mon.{
  event_value, has, PollCtx, EventValues, MonData, Ratio, none_yet, quotient,
}
use multi_resource_isolation.Mon.Perf.{msr_inst_retired_any, msr_cpu_unhalted_ref, msr_pmc0}
use multi_resource_isolation.Mon.Start.{Watched}

-- PQOS_MSR_MON_QMC and PQOS_MSR_MON_EVTSEL
abbrev pub msr_mon_qmc : ℕ
msr_mon_qmc = 0xC8E

abbrev pub msr_mon_evtsel : ℕ
msr_mon_evtsel = 0xC8D

-- The selection of an RMID and an event id.
abbrev pub selection : ℕ → ℕ → ℕ
selection rmid event = bit_or (bit_and rmid (2 ^ 10 - 1) * 2 ^ 32) (bit_and event (2 ^ 8 - 1))

-- PQOS_MSR_MON_QMC_ERROR, PQOS_MSR_MON_QMC_UNAVAILABLE and PQOS_MSR_MON_QMC_DATA_MASK
abbrev pub qmc_error : ℕ → Bool
qmc_error val = has val (2 ^ 63)

abbrev pub qmc_unavailable : ℕ → Bool
qmc_unavailable val = has val (2 ^ 62)

abbrev pub qmc_data : ℕ → ℕ
qmc_data val = bit_and val (2 ^ 62 - 1)

-- `get_event_id`
abbrev pub get_event_id : MonEvent → ℕ
get_event_id l3_occup = 1
get_event_id lmem_bw = 3
get_event_id tmem_bw = 2
get_event_id _ = 0

-- MBM_MAX_VALUE
abbrev pub mbm_max_value : ℕ
mbm_max_value = 2 ^ 24

-- `get_delta`, on `uint64_t`.
unfoldable pub get_delta : ℕ → ℕ → ℕ
get_delta old_value new_value =
    if ltb new_value old_value
    then u64 (mbm_max_value + 2 ^ 64 - old_value + new_value)
    else new_value - old_value

-- `scale_event`
unfoldable pub scale_event : Platform → MonEvent → ℕ → ℕ
scale_event p event val = elim (get_event p.interface p.cap event) [
  | err e ↦ val
  | ok pmon ↦ u64 (val * pmon.scale_factor)
]

-- `a - b` on `uint64_t`.
abbrev pub minus64 : ℕ → ℕ → ℕ
minus64 a b = u64 (a + 2 ^ 64 - b)

module _ (m : Msr) where
  -- The loop of `mon_read`, with `more` rounds after this one.
  unfoldable pub read_qmc : ℕ → ℕ → Action m.State ℕ
  read_qmc zero lcore = do
    val ← read_msr m lcore msr_mon_qmc
    fail_if (qmc_error val) Retval.error
    pure val
  read_qmc (suc more) lcore = do
    val ← read_msr m lcore msr_mon_qmc
    fail_if (qmc_error val) Retval.error
    let again = read_qmc more lcore
    elim (qmc_unavailable val) [ true ↦ again | false ↦ pure val ]

  unfoldable pub mon_read : ℕ → ℕ → ℕ → Action m.State ℕ
  mon_read lcore rmid event = do
    write_msr m lcore msr_mon_evtsel (selection rmid event)
    val ← read_qmc 2 lcore
    pure (qmc_data val)

  -- A loop of `pqos_core_poll` over the contexts.
  unfoldable pub sum_reads : ℕ → List PollCtx → ℕ → Action m.State ℕ
  sum_reads id [] total = pure total
  sum_reads id (x ∷ xs) total = do
    tmp ← mon_read x.lcore x.rmid id
    sum_reads id xs (u64 (total + tmp))

  -- The loops over the cores.
  unfoldable pub sum_ipc : List ℕ → ℕ → ℕ → Action m.State (ℕ × ℕ)
  sum_ipc [] retired unhalted = pure (retired, unhalted)
  sum_ipc (core ∷ cores) retired unhalted = do
    r ← read_msr m core msr_inst_retired_any
    u ← read_msr m core msr_cpu_unhalted_ref
    sum_ipc cores (u64 (retired + r)) (u64 (unhalted + u))

  unfoldable pub sum_misses : List ℕ → ℕ → Action m.State ℕ
  sum_misses [] missed = pure missed
  sum_misses (core ∷ cores) missed = do
    tmp ← read_msr m core msr_pmc0
    sum_misses cores (u64 (missed + tmp))

-- The updates of `p->values`.
abbrev pub new_local : Platform → ℕ → EventValues → EventValues
new_local p total v = record v {
  mbm_local = total;
  mbm_local_delta = scale_event p lmem_bw (get_delta v.mbm_local total);
}

abbrev pub new_total : Platform → ℕ → EventValues → EventValues
new_total p total v = record v {
  mbm_total = total;
  mbm_total_delta = scale_event p tmem_bw (get_delta v.mbm_total total);
}

abbrev pub new_remote : EventValues → EventValues
new_remote v = record v {
  mbm_remote = if ltb v.mbm_local v.mbm_total then v.mbm_total - v.mbm_local else 0;
  mbm_remote_delta =
      if ltb v.mbm_local_delta v.mbm_total_delta then v.mbm_total_delta - v.mbm_local_delta else 0;
}

-- `count` is what `read` has put into the `long long` of that name.
abbrev pub new_ipc : ℕ → ℕ → ℕ → EventValues → EventValues
new_ipc retired unhalted count v = record v {
  ipc_unhalted_delta = minus64 unhalted v.ipc_unhalted;
  ipc_retired_delta = minus64 retired v.ipc_retired;
  ipc_unhalted = unhalted;
  ipc_retired = retired;
  ipc =
      if minus64 unhalted v.ipc_unhalted == 0
      then none_yet
      else quotient (minus64 retired v.ipc_retired) (minus64 unhalted v.ipc_unhalted);
  ipc_retired_delta_pid = minus64 (u64 count) v.ipc_retired_pid;
  ipc_retired_pid = u64 count;
}

abbrev pub new_misses : ℕ → EventValues → EventValues
new_misses missed v = record v {
  llc_misses_delta = minus64 missed v.llc_misses;
  llc_misses = missed;
}

-- `if (!p->valid_mbm_read)`: the first bandwidths read are reported as 0.
abbrev pub first_read : MonData → MonData
first_read g = if g.valid_mbm_read then g else record g {
  values = record g.values { mbm_remote_delta = 0; mbm_local_delta = 0; mbm_total_delta = 0 };
  valid_mbm_read = true;
}

module _ (m : Msr) where
  -- What a part of the poll makes of what it has read.
  abbrev pub update_by :
      {A : Type 0}
      → (A → EventValues → EventValues)
      → MonData
      → Result A
      → m.State
      → Result (Unit {0}) × Watched m
  update_by f g (err e) s = (err e, record { group = g; registers = s })
  update_by f g (ok a) s =
      (ok tt, record { group = record g { values = f a g.values }; registers = s })

  -- Reads, and an update of the values by what was read; both where the events ask for it.
  unfoldable pub poll_if :
      {A : Type 0}
      → Bool
      → Action m.State A
      → (A → EventValues → EventValues)
      → Action (Watched m) (Unit {0})
  poll_if false x f w = (ok tt, w)
  poll_if true x f w = let (r, s) = x w.registers in update_by f w.group r s

  -- `read(pv->fd_ins, &count, sizeof(long long))`, from which the number in `count` comes.
  module _ (read_count : ℕ → m.State → ℕ × m.State) (p : Platform) where
    unfoldable pub poll_llc : MonData → Action (Watched m) (Unit {0})
    poll_llc g =
        poll_if (has g.event 1) (sum_reads m (get_event_id l3_occup) g.poll_ctx 0)
          (λ total v. record v { llc = scale_event p l3_occup total })

    unfoldable pub poll_local : MonData → Action (Watched m) (Unit {0})
    poll_local g =
        poll_if (has g.event 10) (sum_reads m (get_event_id lmem_bw) g.poll_ctx 0) (new_local p)

    unfoldable pub poll_total : MonData → Action (Watched m) (Unit {0})
    poll_total g =
        poll_if (has g.event 12) (sum_reads m (get_event_id tmem_bw) g.poll_ctx 0) (new_total p)

    unfoldable pub poll_remote : MonData → Action (Watched m) (Unit {0})
    poll_remote g = poll_if (has g.event 8) (pure tt) (λ u v. new_remote v)

    abbrev pub read_ipc : MonData → Action m.State (ℕ × ℕ × ℕ)
    read_ipc g s =
        let (r, s') = sum_ipc m g.cores 0 0 s in
        elim r [
          | err e ↦ (err e, s')
          | ok sums ↦
              let (count, s'') = read_count g.values.fd_ins s' in (ok (sums.0, sums.1, count), s'')
        ]

    unfoldable pub poll_ipc : MonData → Action (Watched m) (Unit {0})
    poll_ipc g =
        poll_if (has g.event (event_value ipc)) (read_ipc g)
          (λ sums v. new_ipc sums.0 sums.1 sums.2 v)

    unfoldable pub poll_misses : MonData → Action (Watched m) (Unit {0})
    poll_misses g = poll_if (has g.event (event_value llc_miss)) (sum_misses m g.cores 0) new_misses

    unfoldable pub end_poll : Action (Watched m) (Unit {0})
    end_poll w = (ok tt, record w { group = first_read w.group })

    -- `g` gives the fields of the group that a poll leaves alone: the events, contexts and cores.
    unfoldable pub core_poll : MonData → Action (Watched m) (Unit {0})
    core_poll g = do
      poll_llc g
      poll_local g
      poll_total g
      poll_remote g
      poll_ipc g
      poll_misses g
      end_poll

    -- `pqos_core_poll`
    unfoldable pub pqos_core_poll : Action (Watched m) (Unit {0})
    unfolding core_poll
    pqos_core_poll w = core_poll w.group w

    -- `hw_mon_poll`: a group that fails is logged.
    unfoldable pub hw_mon_poll : List MonData → m.State → List MonData × m.State
    unfolding pqos_core_poll
    hw_mon_poll [] s = ([], s)
    hw_mon_poll (group ∷ groups) s =
        let w = (pqos_core_poll (record { group = group; registers = s })).1 in
        let (rest, s') = hw_mon_poll groups w.registers in (w.group ∷ rest, s')
