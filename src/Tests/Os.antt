-- ===== src/Tests/Os.antt =====
-- The OS interface on files kept as a function.
use multi_resource_isolation.Prelude.{
  ℕ, zero, suc, ◌≤◌, ◌<◌, ◌≡◌, refl, Bool, true, false, ◌==◌, if◌then◌else◌, arith, List, [], ◌∷◌,
  some,
}
use multi_resource_isolation.Types.{ok}
use multi_resource_isolation.Cap.{os, l3ca_get_cos_num, l2ca_get_cos_num, mba_get_cos_num}
use multi_resource_isolation.Alloc.{Platform}
use multi_resource_isolation.Rctl.{File, Files}
use multi_resource_isolation.Rctl.Groups.{get_grps_num}
use multi_resource_isolation.Os.Setup.{System, make_groups, os_alloc_prep}
use multi_resource_isolation.Os.Groups.{Makes, os_alloc_prep_lem}
use multi_resource_isolation.Tests.Bench.{all_zero, caps, four_cores}

abbrev Group : Type 0
Group = ℕ → File → List ℕ

abbrev kept : Files Group
kept = record {
  read_file = λ class_id name s. (some (s class_id name), s);
  write_file = λ class_id name text s. (true, s);
}

abbrev on_linux : Platform
on_linux = record { interface = os; cap = caps false 4; cpu = four_cores; undefined = all_zero }

-- Core 1 in group 2 alone, and a task in group 3.
abbrev groups : Group
groups (suc (suc zero)) File.cpus = b'2' ∷ []
groups (suc (suc (suc zero))) File.tasks = b'7' ∷ []
groups _ _ = []

-- Directories as a function of the class; resctrl is mounted.
abbrev Dirs : Type 0
Dirs = ℕ → Bool

abbrev directories : System Dirs
directories = record {
  mounted = λ s. true;
  group_exists = λ g s. s g;
  mkdir = λ g s. (true, λ d. if d == g then true else s d);
  mount = λ cdp s. (true, s);
  umount = λ s. (true, s);
}

directories-Makes : Makes directories
directories-Makes = record { made = λ g s h. ground arith; kept = λ g d s h. ground (arith, h) }

abbrev only_two : Dirs
only_two d = d == 2

prepared : (os_alloc_prep directories os (caps false 4) only_two).0 ≡ ok tt
unfolding os_alloc_prep make_groups get_grps_num l3ca_get_cos_num l2ca_get_cos_num mba_get_cos_num
prepared = refl

os_alloc_prep_lem_example :
    (grps : ℕ) × (get_grps_num os (caps false 4) ≡ ok grps)
    × ((d : ℕ)
        → 1 ≤ d
        → d < grps
        → (os_alloc_prep directories os (caps false 4) only_two).1 d ≡ true)
os_alloc_prep_lem_example =
    os_alloc_prep_lem directories os directories-Makes (caps false 4) only_two prepared
