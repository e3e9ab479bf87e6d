-- ===== src/Api/Mon.antt =====
-- The functions of lib/api.c on monitoring. A call that works on a group has it beside the state that
-- the interface works on.
pub mod Groups
use multi_resource_isolation.Prelude.{
  ℕ, ◌+◌, ◌-◌, ◌^◌, ◌≡◌, refl, sym, ap, Bool, true, false, not, ◌||◌, ◌&&◌, bit_and, ◌==◌, List, [],
  ◌∷◌, Option, none, some,
}
use multi_resource_isolation.Types.{Retval, Result, ok, err, Action}
use multi_resource_isolation.Cap.{Interface, msr, os}
use multi_resource_isolation.Mon.{MonData, zero_group, has}
use multi_resource_isolation.Api.{
  Library, Event, locked, entered, unlocked, check_init, enter, under_lock, refuse_if, api_lock,
}
use multi_resource_isolation.Api.Tables.{no_entries, entries_of}

-- The functions `hw_mon_*` and `os_mon_*`.
pub record MonBackends (S : Type 0) : Type 0 where
  pub hw_reset : Action S (Unit {0})
  pub hw_assoc_get : ℕ → Bool → Action S ℕ
  pub hw_start : List ℕ → ℕ → ℕ → Action (MonData × S) (Unit {0})
  pub os_start : List ℕ → ℕ → ℕ → Action (MonData × S) (Unit {0})
  pub hw_stop : Action (MonData × S) (Unit {0})
  pub os_stop : Action (MonData × S) (Unit {0})
  pub hw_poll : Action (List MonData × S) (Unit {0})
  pub os_poll : Action (List MonData × S) (Unit {0})
  pub os_start_pid : ℕ → Action (MonData × S) (Unit {0})

-- The events of RDT and those of the performance counters.
abbrev pub rdt_mask : ℕ
rdt_mask = 15

abbrev pub perf_mask : ℕ
perf_mask = 0xC000

-- An event outside both masks, or those of the counters on their own.
abbrev pub bad_events : ℕ → Bool
bad_events event =
    not (bit_and event (2 ^ 32 - 1 - (rdt_mask + perf_mask)) == 0)
    || (bit_and event rdt_mask == 0 && has event perf_mask)

abbrev pub no_groups : List MonData → Bool
no_groups [] = true
no_groups (g ∷ gs) = false

abbrev pub any_invalid : List MonData → Bool
any_invalid [] = false
any_invalid (g ∷ gs) = not g.valid || any_invalid gs

module _ {S : Type 0} where
  -- `if (m_interface == PQOS_INTER_MSR) ... else ...`, on Linux.
  abbrev pub select : Action S (Unit {0}) → Action S (Unit {0}) → Action (Library S) (Unit {0})
  select hw other l = elim l.interface [ msr ↦ enter hw l | os ↦ enter other l ]

  -- "OS interface not supported!"
  abbrev pub hw_only : {A : Type 0} → Action S A → Action (Library S) A
  hw_only op l = elim l.interface [ msr ↦ enter op l | os ↦ (err Retval.resource, l) ]

  -- The group of a library.
  abbrev pub group_of : Library (MonData × S) → MonData
  group_of l = l.state.0

  -- `if (ret == PQOS_RETVAL_OK) group->valid = GROUP_VALID_MARKER;`
  abbrev pub mark_valid :
      Result (Unit {0}) → Library (MonData × S) → Result (Unit {0}) × Library (MonData × S)
  mark_valid (ok u) l =
      (ok tt, record l { state = (record (group_of l) { valid = true }, l.state.1) })
  mark_valid (err e) l = (err e, l)

  abbrev pub marked :
      Action (Library (MonData × S)) (Unit {0}) → Action (Library (MonData × S)) (Unit {0})
  marked body l = let (r, l') = body l in mark_valid r l'

  -- `if (m_interface != PQOS_INTER_OS) ... return PQOS_RETVAL_ERROR;`
  abbrev pub os_only : Action (Library S) (Unit {0}) → Action (Library S) (Unit {0})
  os_only body l = elim l.interface [ msr ↦ (err Retval.error, l) | os ↦ body l ]

  -- The group set to zero, with its event and context.
  abbrev pub cleared : ℕ → ℕ → Library (MonData × S) → Library (MonData × S)
  cleared event context l = record l {
    state = (record zero_group { event = event; context = context }, l.state.1);
  }

module _ {S : Type 0} (b : MonBackends S) where
  unfoldable pub pqos_mon_reset : Action (Library S) (Unit {0})
  pqos_mon_reset = under_lock (hw_only b.hw_reset)

  unfoldable pub pqos_mon_assoc_get : ℕ → Bool → Action (Library S) ℕ
  pqos_mon_assoc_get lcore out = under_lock (hw_only (b.hw_assoc_get lcore out))

  -- `given` says whether the pointer to the group is not NULL.
  unfoldable pub pqos_mon_start :
      Option (List ℕ) → ℕ → ℕ → Bool → Action (Library (MonData × S)) (Unit {0})
  pqos_mon_start cores event context given l =
      refuse_if
        (((not given || no_entries cores) || event == 0)
          || ((group_of l).valid || bad_events event))
        (under_lock (
          marked (
            select (b.hw_start (entries_of cores) event context)
              (b.os_start (entries_of cores) event context))))
        l

  unfoldable pub pqos_mon_stop : Bool → Action (Library (MonData × S)) (Unit {0})
  pqos_mon_stop given l =
      refuse_if (not given || not (group_of l).valid) (under_lock (select b.hw_stop b.os_stop)) l

  -- No group of the array is NULL.
  unfoldable pub pqos_mon_poll : Action (Library (List MonData × S)) (Unit {0})
  pqos_mon_poll l =
      refuse_if (no_groups l.state.0 || any_invalid l.state.0)
        (under_lock (select b.hw_poll b.os_poll)) l

  -- A process id below 0 is `none`; the function of the OS interface gets the id, which is the
  -- field `pid` of the group.
  unfoldable pub pqos_mon_start_pid :
      Option ℕ → ℕ → ℕ → Bool → Action (Library (MonData × S)) (Unit {0})
  pqos_mon_start_pid none event context given l = (err Retval.param, l)
  pqos_mon_start_pid (some pid) event context given l =
      refuse_if ((not given || event == 0) || (group_of l).valid)
        (os_only (
          refuse_if (bad_events event)
            (under_lock (λ k. marked (enter (b.os_start_pid pid)) (cleared event context k)))))
        l
