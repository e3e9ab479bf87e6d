-- ===== src/Rctl/Tasks.antt =====
-- lib/resctrl_alloc.c, `resctrl_alloc_task_*`: the tasks of a class and their file. A task is its
-- number, which is not negative.
use multi_resource_isolation.Prelude.{
  ℕ, zero, suc, Bool, true, false, ◌==◌, if◌then◌else◌, List, [], ◌∷◌, none, some, u32,
}
use multi_resource_isolation.Types.{Retval, ok, err, Action, pure, lift, fail, ◌>>=◌, ◌>>◌}
use multi_resource_isolation.Cap.{Interface, Cap}
use multi_resource_isolation.Alloc.Assoc.{or_param}
use multi_resource_isolation.Rctl.{File, Files, read_text, write_text}
use multi_resource_isolation.Rctl.Number.{print_number, strtouint64}
use multi_resource_isolation.Rctl.Groups.{get_grps_num}
use multi_resource_isolation.Rctl.Schemata.Text.{lines}

-- `char buf[128]`
abbrev pub task_buf_size : ℕ
task_buf_size = 127

-- A line that is no number is skipped; a number is cut to the 32 bits of `pid_t`.
unfoldable pub lists_task : ℕ → List (List ℕ) → Bool
lists_task task [] = false
lists_task task (l ∷ ls) =
    let rest = lists_task task ls in
    elim (strtouint64 10 l) [ none ↦ rest | some tid ↦ if u32 tid == task then true else rest ]

-- `exists_task` is `access` on the directory of a task in /proc.
module _ {S : Type 0} (fs : Files S) (exists_task : ℕ → S → Bool) where
  unfoldable pub task_validate : ℕ → Action S (Unit {0})
  task_validate task s = if exists_task task s then (ok tt, s) else (err Retval.error, s)

  -- The callers turn that error into PARAM.
  abbrev pub valid_task : ℕ → Action S (Unit {0})
  valid_task task s = let (r, s') = task_validate task s in (or_param r, s')

  unfoldable pub task_write : ℕ → ℕ → Action S (Unit {0})
  task_write class_id task = do
    valid_task task
    write_text fs class_id File.tasks (print_number 10 task (b'\n' ∷ []))

  -- The loop over the classes, from `n - 1` down to 0.
  unfoldable pub search_classes : ℕ → ℕ → Action S ℕ
  search_classes task zero = fail Retval.error
  search_classes task (suc i) = do
    text ← read_text fs i File.tasks
    let lower = search_classes task i
    if lists_task task (lines task_buf_size task_buf_size text) then pure i else lower

  unfoldable pub task_search : Interface → Cap → ℕ → Action S ℕ
  task_search interface cap task = do
    valid_task task
    max_cos ← lift (get_grps_num interface cap)
    search_classes task max_cos
