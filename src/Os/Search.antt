-- ===== src/Os/Search.antt =====
-- lib/os_allocation.c: which class `os_alloc_assoc_get` finds.
use multi_resource_isolation.Prelude.{ℕ, ◌+◌, ◌≤◌, ◌<◌, ◌≡◌, Bool, true, false, ◌==◌, List}
use multi_resource_isolation.Types.{ok}
use multi_resource_isolation.Rctl.{File, Files}
use multi_resource_isolation.Rctl.Cpumask.{cpumask_get, cpumask_read}

module _ {S : Type 0} (fs : Files S) where
  -- Reading files changes nothing.
  abbrev pub Steady : Type 0
  Steady = (class_id : ℕ) (f : File) (s : S) → (fs.read_file class_id f s).1 ≡ s

  -- The file of cores of a class can be read, and has the core or has it not.
  abbrev pub Reads : ℕ → ℕ → S → Bool → Type 0
  Reads lcore class_id s without =
      (tab : List ℕ) × ((cpumask_read fs class_id s).0 ≡ ok tab)
      × ((cpumask_get lcore tab == 0) ≡ without)

  pub cpumask_read_steady : Steady → (class_id : ℕ) (s : S) → (cpumask_read fs class_id s).1 ≡ s
  unfolding cpumask_read
  cpumask_read_steady k class_id s = k class_id File.cpus s

  -- What the loop knows of the class it returns.
  record IsFirst (lcore i n c : ℕ) (s : S) : Type 0 where
    low : i ≤ c
    high : c < i + n
    has : Reads lcore c s false
    first : (d : ℕ) → i ≤ d → d < c → Reads lcore d s true
