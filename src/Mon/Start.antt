-- ===== src/Mon/Start.antt =====
-- `hw_mon_start` and `hw_mon_stop` of lib/monitoring.c.
pub mod Plan
pub mod Associate
pub mod Started
pub mod Stopped
use multi_resource_isolation.Prelude.{
  ℕ, zero, suc, ◌+◌, ◌^◌, Bool, true, false, not, ◌||◌, ◌&&◌, bit_and, ◌==◌, if◌then◌else◌, List,
  [], ◌∷◌, ◌++◌, Option, none, some,
}
use multi_resource_isolation.Types.{
  Retval, Result, ok, err, Action, pure, lift, fail_if, ◌>>=◌, ◌>>◌,
}
use multi_resource_isolation.Msr.{Msr}
use multi_resource_isolation.Cpu.{check_core, get_clusterid}
use multi_resource_isolation.Cap.{
  MonEvent, l3_occup, lmem_bw, tmem_bw, rmem_bw, reserved1, reserved2, llc_miss, ipc, get_event,
}
use multi_resource_isolation.Alloc.{Platform}
use multi_resource_isolation.Alloc.Assoc.{or_param}
use multi_resource_isolation.Mon.{has, PollCtx, MonData, zero_group}
use multi_resource_isolation.Mon.Assoc.{mon_assoc_get, mon_assoc_set, zero_rmids}
use multi_resource_isolation.Mon.Rmid.{rmid_alloc}
use multi_resource_isolation.Mon.Perf.{ia32_perf_counter_start, ia32_perf_counter_stop}

-- The event whose value is `1 << i`, if there is one.
abbrev pub event_at : ℕ → Option MonEvent
event_at i =
    if i == 0
    then some l3_occup
    else if i == 1
    then some lmem_bw
    else if i == 2
    then some tmem_bw
    else if i == 3
    then some rmem_bw
    else if i == 12
    then some reserved1
    else if i == 13
    then some reserved2
    else if i == 14
    then some llc_miss
    else if i == 15
    then some ipc
    else none

-- One round of the first loop: `pqos_cap_get_event` finds no event of another value.
abbrev pub known_event : Platform → Option MonEvent → Bool
known_event p none = false
known_event p (some e) = elim (get_event p.interface p.cap e) [ ok x ↦ true | err x ↦ false ]

-- The first loop, with `rounds` bits of the mask left, from bit `i`.
unfoldable pub check_events : Platform → ℕ → ℕ → ℕ → Result (Unit {0})
check_events p event zero i = ok tt
check_events p event (suc rounds) i =
    if has (2 ^ i) event && not (known_event p (event_at i))
    then err Retval.param
    else check_events p event rounds (i + 1)

-- Is the core or its cluster in the table of contexts?
unfoldable pub has_context : ℕ → ℕ → List PollCtx → Bool
has_context lcore cluster [] = false
has_context lcore cluster (x ∷ xs) =
    (x.lcore == lcore || x.cluster == cluster) || has_context lcore cluster xs

-- The RMID of a cluster, as the last loop looks it up.
unfoldable pub rmid_for : ℕ → List PollCtx → Result ℕ
rmid_for cluster [] = err Retval.error
rmid_for cluster (x ∷ xs) = if x.cluster == cluster then ok x.rmid else rmid_for cluster xs

-- The events without those of the performance counters.
abbrev pub rmid_events : ℕ → ℕ
rmid_events event = bit_and event 0xFFFF3FFF

-- Any code of `mon_assoc_get` but OK becomes PARAM.
abbrev pub get_or_param : {S A : Type 0} → Action S A → Action S A
get_or_param x s = let (r, s') = x s in (or_param r, s')

-- Whether memory is granted: for the two lists of `rmid_alloc` in a cluster, and for the two tables
-- of the group.
pub record Grants : Type 0 where
  pub core_list : ℕ → Bool
  pub rmid_list : ℕ → Bool
  pub cores : Bool
  pub poll_ctx : Bool

-- What `hw_mon_stop` works on: the group and the registers.
pub record Watched (m : Msr) : Type 0 where
  pub group : MonData
  pub registers : m.State

-- `if (ret != PQOS_RETVAL_OK) retval = PQOS_RETVAL_RESOURCE;`
abbrev pub then_resource : Result (Unit {0}) → Result (Unit {0}) → Result (Unit {0})
then_resource retval (ok u) = retval
then_resource retval (err e) = err Retval.resource

module _ (m : Msr) where
  -- `if (j >= num_ctxs)`: a new cluster gets an RMID of its own.
  unfoldable pub context_unless :
      Bool → Platform → ℕ → Grants → ℕ → ℕ → ℕ → List PollCtx → Action m.State (List PollCtx)
  context_unless true p rmid_max grants event lcore cluster ctxs = pure ctxs
  context_unless false p rmid_max grants event lcore cluster ctxs = do
    rmid ←
        rmid_alloc m p rmid_max (grants.core_list cluster) (grants.rmid_list cluster) cluster
          (rmid_events event)
    pure (ctxs ++ (record { lcore = lcore; cluster = cluster; rmid = rmid } ∷ []))

  abbrev pub with_context :
      Platform → ℕ → Grants → ℕ → ℕ → ℕ → List PollCtx → Action m.State (List PollCtx)
  with_context p rmid_max grants event lcore cluster ctxs =
      context_unless (has_context lcore cluster ctxs) p rmid_max grants event lcore cluster ctxs

  -- The loop over the cores: the contexts, and the cluster of each core (`core2cluster`).
  unfoldable pub plan :
      Platform
      → ℕ
      → Grants
      → ℕ
      → List ℕ
      → List PollCtx
      → Action m.State (List PollCtx × List (ℕ × ℕ))
  plan p rmid_max grants event [] ctxs = pure (ctxs, [])
  plan p rmid_max grants event (lcore ∷ cores) ctxs = do
    lift (or_param (check_core p.cpu lcore))
    rmid ← get_or_param (mon_assoc_get m lcore)
    fail_if (not (rmid == 0)) Retval.resource
    cluster ← lift (or_param (get_clusterid p.cpu lcore))
    ctxs' ← with_context p rmid_max grants event lcore cluster ctxs
    planned ← plan p rmid_max grants event cores ctxs'
    pure (planned.0, (lcore, cluster) ∷ planned.1)

  -- The loop that associates the cores.
  unfoldable pub associate : List (ℕ × ℕ) → List PollCtx → Action m.State (Unit {0})
  associate [] ctxs = pure tt
  associate ((lcore, cluster) ∷ rest) ctxs = do
    rmid ← lift (rmid_for cluster ctxs)
    mon_assoc_set m lcore rmid
    associate rest ctxs

  -- From `pqos_mon_start_error2`: the cores go back to RMID0, whatever the writes return.
  unfoldable pub undo : List ℕ → m.State → m.State
  undo [] s = s
  undo (lcore ∷ cores) s = undo cores (mon_assoc_set m lcore 0 s).1

  abbrev pub or_undo : {A : Type 0} → List ℕ → Action m.State A → Action m.State A
  or_undo cores x s =
      let (r, s') = x s in elim r [ ok a ↦ (ok a, s') | err e ↦ (err e, undo cores s') ]

  -- The steps that a failure undoes.
  unfoldable pub begin : ℕ → Bool → List ℕ → List (ℕ × ℕ) → List PollCtx → Action m.State (Unit {0})
  begin event poll_ctx cores core2cluster ctxs = do
    fail_if (not poll_ctx) Retval.resource
    ia32_perf_counter_start m event cores
    associate core2cluster ctxs

  -- A success hands back the group. On an error the caller's group is as it was, or zero but for
  -- pointers to memory that was freed, and `valid` is not set.
  unfoldable pub hw_mon_start : Platform → ℕ → Grants → List ℕ → ℕ → ℕ → Action m.State MonData
  hw_mon_start p rmid_max grants cores event context = do
    lift (check_events p event 32 0)
    planned ← plan p rmid_max grants event cores []
    fail_if (not grants.cores) Retval.resource
    or_undo cores (begin event grants.poll_ctx cores planned.1 planned.0)
    pure (record zero_group {
      event = event;
      context = context;
      poll_ctx = planned.0;
      cores = cores;
    })

  -- The check of the contexts, which only warns where the RMID has changed.
  unfoldable pub check_contexts : Platform → List PollCtx → Action m.State (Unit {0})
  check_contexts p [] = pure tt
  check_contexts p (x ∷ xs) = do
    lift (or_param (check_core p.cpu x.lcore))
    rmid ← get_or_param (mon_assoc_get m x.lcore)
    check_contexts p xs

  -- The part after the check: the cores go back to RMID0 and the counters stop.
  unfoldable pub end_monitoring : MonData → Action m.State (Unit {0})
  end_monitoring group s =
      let (freed, s') = zero_rmids m then_resource group.cores (ok tt) s in
      let (r, s'') = ia32_perf_counter_stop m group.event group.cores s' in
      (then_resource freed r, s'')

  abbrev pub without_cores : MonData → Bool
  without_cores group = elim (group.cores) [
    | [] ↦ true
    | _ ↦ elim (group.poll_ctx) [ [] ↦ true | _ ↦ false ]
  ]

  -- What follows the check: a failed one returns, with the group as it was.
  abbrev pub after_check :
      MonData
      → Result (Unit {0})
      → Action m.State (Unit {0})
      → m.State
      → Result (Unit {0}) × Watched m
  after_check group (err e) end s = (err e, record { group = group; registers = s })
  after_check group (ok u) end s =
      let (r, s') = end s in (r, record { group = zero_group; registers = s' })

  unfoldable pub hw_mon_stop : Platform → Action (Watched m) (Unit {0})
  hw_mon_stop p w = elim (without_cores w.group) [
    | true ↦ (err Retval.param, w)
    | false ↦
        let (checked, s) = check_contexts p w.group.poll_ctx w.registers in
        after_check w.group checked (end_monitoring w.group) s
  ]
