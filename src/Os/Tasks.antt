-- ===== src/Os/Tasks.antt =====
-- lib/os_allocation.c: the association of tasks.
use multi_resource_isolation.Prelude.{ℕ, ◌-◌, Bool, leb, ◌==◌, List, [], ◌∷◌}
use multi_resource_isolation.Types.{Retval, ok, err, Action, pure, lift, fail_if, ◌>>=◌, ◌>>◌}
use multi_resource_isolation.Alloc.{Platform}
use multi_resource_isolation.Rctl.{Files}
use multi_resource_isolation.Rctl.Groups.{get_grps_num}
use multi_resource_isolation.Rctl.Tasks.{task_write, task_search}
use multi_resource_isolation.Os.{get_unused_cos}

module _ {S : Type 0} (fs : Files S) (exists_task : ℕ → S → Bool) where
  unfoldable pub assign_tasks : ℕ → List ℕ → Action S (Unit {0})
  assign_tasks class_id [] = pure tt
  assign_tasks class_id (t ∷ ts) = do task_write fs exists_task class_id t; assign_tasks class_id ts

  -- Only PQOS_RETVAL_ERROR ends the loop: a task that does not exist is passed over.
  unfoldable pub os_alloc_release_pid : List ℕ → Action S (Unit {0})
  os_alloc_release_pid [] s = (ok tt, s)
  os_alloc_release_pid (t ∷ ts) s =
      let (r, s') = task_write fs exists_task 0 t s in
      let rest = os_alloc_release_pid ts s' in
      elim r [ err Retval.error ↦ (err Retval.error, s') | _ ↦ rest ]

  module _ (p : Platform) where
    unfoldable pub os_alloc_assoc_set_pid : ℕ → ℕ → Action S (Unit {0})
    os_alloc_assoc_set_pid task class_id = do
      max_cos ← lift (get_grps_num p.interface p.cap)
      fail_if (leb max_cos class_id) Retval.param
      task_write fs exists_task class_id task

    unfoldable pub os_alloc_assoc_get_pid : ℕ → Action S ℕ
    os_alloc_assoc_get_pid task = task_search fs exists_task p.interface p.cap task

    unfoldable pub os_alloc_assign_pid : ℕ → List ℕ → Action S ℕ
    os_alloc_assign_pid technology task_array = do
      num_rctl_grps ← lift (get_grps_num p.interface p.cap)
      fail_if (num_rctl_grps == 0) Retval.error
      class_id ← get_unused_cos fs (num_rctl_grps - 1)
      assign_tasks class_id task_array
      pure class_id
