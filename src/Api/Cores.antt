-- ===== src/Api/Cores.antt =====
-- The functions of lib/api.c on the classes of cores and tasks, and the reset.
use multi_resource_isolation.Prelude.{ℕ, Bool, true, false, not, ◌||◌, List, Option, none, some}
use multi_resource_isolation.Types.{Retval, ok, err, Action, fail}
use multi_resource_isolation.Cap.{msr, os}
use multi_resource_isolation.Alloc.Assign.{l3_req, l2_req, mba_req}
use multi_resource_isolation.Alloc.Reset.{CdpConfig}
use multi_resource_isolation.Api.{
  Backends, Library, dispatch, on_tasks, under_lock, refuse_if, enter,
}
use multi_resource_isolation.Api.Tables.{no_entries, entries_of}

-- `!(l2_req || l3_req || mba_req)`
abbrev pub no_technology : ℕ → Bool
no_technology technology = not (l2_req technology || (l3_req technology || mba_req technology))

module _ {S : Type 0} (b : Backends S) where
  unfoldable pub pqos_alloc_assoc_set : ℕ → ℕ → Action (Library S) (Unit {0})
  pqos_alloc_assoc_set lcore class_id = under_lock (dispatch b (λ i. i.assoc_set lcore class_id))

  unfoldable pub pqos_alloc_assoc_get : ℕ → Bool → Action (Library S) ℕ
  pqos_alloc_assoc_get lcore out =
      refuse_if (not out) (under_lock (dispatch b (λ i. i.assoc_get lcore)))

  unfoldable pub pqos_alloc_assign : ℕ → Option (List ℕ) → Bool → Action (Library S) ℕ
  pqos_alloc_assign technology core_array out =
      refuse_if (no_entries core_array || (not out || no_technology technology))
        (under_lock (dispatch b (λ i. i.assign technology (entries_of core_array))))

  unfoldable pub pqos_alloc_release : Option (List ℕ) → Action (Library S) (Unit {0})
  pqos_alloc_release core_array =
      refuse_if (no_entries core_array)
        (under_lock (dispatch b (λ i. i.release (entries_of core_array))))

  -- `none` stands for a value outside the enumeration.
  unfoldable pub pqos_alloc_reset : Option CdpConfig → Action (Library S) (Unit {0})
  pqos_alloc_reset none = fail Retval.param
  pqos_alloc_reset (some cfg) = under_lock (dispatch b (λ i. i.reset cfg))

  unfoldable pub pqos_alloc_assoc_set_pid : ℕ → ℕ → Action (Library S) (Unit {0})
  pqos_alloc_assoc_set_pid task class_id =
      under_lock (on_tasks (b.tasks.assoc_set_pid task class_id))

  unfoldable pub pqos_alloc_assoc_get_pid : ℕ → Bool → Action (Library S) ℕ
  pqos_alloc_assoc_get_pid task out =
      refuse_if (not out) (under_lock (on_tasks (b.tasks.assoc_get_pid task)))

  unfoldable pub pqos_alloc_assign_pid : ℕ → Option (List ℕ) → Bool → Action (Library S) ℕ
  pqos_alloc_assign_pid technology task_array out =
      refuse_if (no_entries task_array || not out)
        (under_lock (on_tasks (b.tasks.assign_pid technology (entries_of task_array))))

  unfoldable pub pqos_alloc_release_pid : Option (List ℕ) → Action (Library S) (Unit {0})
  pqos_alloc_release_pid task_array =
      refuse_if (no_entries task_array)
        (under_lock (on_tasks (b.tasks.release_pid (entries_of task_array))))

  -- Every failure is a NULL result, here `Retval.error`; the interface is tested before the lock.
  abbrev pub or_null : {A : Type 0} → Action (Library S) A → Action (Library S) A
  or_null x l = let (r, l') = x l in (elim r [ ok a ↦ ok a | err e ↦ err Retval.error ], l')

  unfoldable pub pqos_pid_get_pid_assoc : ℕ → Bool → Action (Library S) (List ℕ)
  pqos_pid_get_pid_assoc class_id false l = (err Retval.error, l)
  pqos_pid_get_pid_assoc class_id true l = elim l.interface [
    | msr ↦ (err Retval.error, l)
    | os ↦ or_null (under_lock (enter (b.tasks.pid_assoc class_id))) l
  ]
