-- ===== src/Os.antt =====
-- lib/os_allocation.c: the allocation technologies through the files of resctrl. This file has the
-- association of cores and the choice of a free class.
pub mod Masks
pub mod Search
pub mod Free
pub mod Tasks
pub mod Setup
pub mod Groups
use multi_resource_isolation.Prelude.{
  ℕ, zero, suc, ◌+◌, ◌-◌, Bool, true, false, not, ◌&&◌, ltb, leb, ◌==◌, if◌then◌else◌, List, [],
  ◌∷◌, length,
}
use multi_resource_isolation.Types.{
  Retval, Result, ok, err, Action, pure, lift, fail, fail_if, ◌>>=◌, ◌>>◌,
}
use multi_resource_isolation.Cpu.{check_core}
use multi_resource_isolation.Cap.{l3ca_get_cos_num, l2ca_get_cos_num}
use multi_resource_isolation.Alloc.{Platform}
use multi_resource_isolation.Alloc.Assoc.{tolerate, or_param}
use multi_resource_isolation.Rctl.{File, Files, read_text}
use multi_resource_isolation.Rctl.Groups.{get_grps_num}
use multi_resource_isolation.Rctl.Cpumask.{cpumask_set, cpumask_get, cpumask_read, cpumask_write}

-- `for (j = 0; j < sizeof(mask.tab); j++) if (mask.tab[j] > 0) ...`
unfoldable pub any_core : List ℕ → Bool
any_core [] = false
any_core (b ∷ bs) = if ltb 0 b then true else any_core bs

-- `fgets(buf, sizeof(buf), fd) != NULL`
abbrev pub any_task : List ℕ → Bool
any_task [] = false
any_task (c ∷ cs) = true

-- The last loop of `get_unused_cos`, from class `cos` down, over the marks of the classes down to 1.
unfoldable pub find_unused : ℕ → List Bool → Result ℕ
find_unused zero used = err Retval.resource
find_unused (suc cos) [] = err Retval.resource
find_unused (suc cos) (u ∷ us) = let lower = find_unused cos us in if u then lower else ok (suc cos)

module _ {S : Type 0} (fs : Files S) where
  -- `resctrl_alloc_task_file_check`
  unfoldable pub task_file_check : ℕ → Action S Bool
  task_file_check class_id = do text ← read_text fs class_id File.tasks; pure (any_task text)

  -- One round of the first loop of `get_unused_cos`.
  unfoldable pub is_used : ℕ → Action S Bool
  is_used i = do mask ← cpumask_read fs i; if any_core mask then pure true else task_file_check i

  -- The marks of the classes from `i` down to 1.
  unfoldable pub used_classes : ℕ → Action S (List Bool)
  used_classes zero = pure []
  used_classes (suc i) = do u ← is_used (suc i); us ← used_classes i; pure (u ∷ us)

  unfoldable pub get_unused_cos : ℕ → Action S ℕ
  get_unused_cos hi_class_id = do
    used ← used_classes hi_class_id
    lift (find_unused hi_class_id used)

  module _ (p : Platform) where
    unfoldable pub os_alloc_assoc_set : ℕ → ℕ → Action S (Unit {0})
    os_alloc_assoc_set lcore class_id = do
      lift (or_param (check_core p.cpu lcore))
      num_l3_cos ← lift (tolerate (l3ca_get_cos_num p.interface p.cap))
      num_l2_cos ← lift (tolerate (l2ca_get_cos_num p.interface p.cap))
      fail_if (leb num_l3_cos class_id && leb num_l2_cos class_id) Retval.param
      mask ← cpumask_read fs class_id
      cpumask_write fs class_id (cpumask_set lcore mask)

    -- The loop of `os_alloc_assoc_get`: `n` rounds left, class `i`.
    unfoldable pub find_class : ℕ → ℕ → ℕ → Action S ℕ
    find_class lcore zero i = fail Retval.error
    find_class lcore (suc n) i = do
      mask ← cpumask_read fs i
      let later = find_class lcore n (i + 1)
      if cpumask_get lcore mask == 0 then later else pure i

    unfoldable pub os_alloc_assoc_get : ℕ → Action S ℕ
    os_alloc_assoc_get lcore = do
      lift (or_param (check_core p.cpu lcore))
      grps ← lift (get_grps_num p.interface p.cap)
      find_class lcore grps 0

    unfoldable pub assign_cores : ℕ → List ℕ → Action S (Unit {0})
    assign_cores class_id [] = pure tt
    assign_cores class_id (c ∷ cs) = do os_alloc_assoc_set c class_id; assign_cores class_id cs

    unfoldable pub os_alloc_assign : ℕ → List ℕ → Action S ℕ
    os_alloc_assign technology core_array = do
      num_rctl_grps ← lift (get_grps_num p.interface p.cap)
      fail_if (num_rctl_grps == 0) Retval.error
      class_id ← get_unused_cos (num_rctl_grps - 1)
      assign_cores class_id core_array
      pure class_id

    -- The mask with the cores of the array, each checked against `num_cores`.
    unfoldable pub with_cores : List ℕ → List ℕ → Result (List ℕ)
    with_cores [] mask = ok mask
    with_cores (c ∷ cs) mask =
        let rest = with_cores cs (cpumask_set c mask) in
        if leb (length p.cpu.cores) c then err Retval.error else rest

    unfoldable pub os_alloc_release : List ℕ → Action S (Unit {0})
    os_alloc_release core_array = do
      mask ← cpumask_read fs 0
      mask' ← lift (with_cores core_array mask)
      cpumask_write fs 0 mask'
