-- ===== src/Os/Free.antt =====
-- lib/os_allocation.c: which class `os_alloc_assign` takes.
use multi_resource_isolation.Prelude.{
  ℕ, zero, suc, ◌≡◌, Bool, true, if◌then◌else◌, List, [], ◌∷◌, ◌⊎◌, All,
}
use multi_resource_isolation.Types.{ok}
use multi_resource_isolation.Rctl.{File, Files, read_text}
use multi_resource_isolation.Rctl.Cpumask.{cpumask_read}
use multi_resource_isolation.Os.{any_core}
use multi_resource_isolation.Os.Search.{Steady}

module _ {S : Type 0} (fs : Files S) where
  -- A class with no core in its mask and an empty file of tasks.
  abbrev pub Idle : ℕ → S → Type 0
  Idle class_id s =
      ((tab : List ℕ) × ((cpumask_read fs class_id s).0 ≡ ok tab) × All (λ (b : ℕ). b ≡ 0) tab)
      × ((read_text fs class_id File.tasks s).0 ≡ ok [])

  -- A class with a core or a task.
  abbrev pub Busy : ℕ → S → Type 0
  Busy class_id s =
      ((tab : List ℕ) × ((cpumask_read fs class_id s).0 ≡ ok tab) × (any_core tab ≡ true))
      ⊎ ((c : ℕ) × (cs : List ℕ) × ((read_text fs class_id File.tasks s).0 ≡ ok (c ∷ cs)))

  module _ (k : Steady fs) where
    -- The marks are those of the classes, and nothing changes.
    Marked : ℕ → List Bool → S → Type 0
    Marked zero us s = Unit
    Marked (suc i) [] s = ⊥
    Marked (suc i) (u ∷ us) s = (if u then Busy (suc i) s else Idle (suc i) s) × Marked i us s
