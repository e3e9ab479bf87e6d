-- ===== src/Tests/Classes.antt =====
-- Classes of cores set, chosen and released on the bench.
use multi_resource_isolation.Prelude.{ℕ, ◌≤◌, ◌≡◌, refl, true, false, [], ◌∷◌, arith, All, inl}
use multi_resource_isolation.Types.{ok}
use multi_resource_isolation.Msr.{msr_assoc}
use multi_resource_isolation.Cpu.{check_core, get_core_info, listed}
use multi_resource_isolation.Cap.{l3ca_get_cos_num, l2ca_get_cos_num, get_type}
use multi_resource_isolation.Alloc.Assoc.{
  cos_assoc_get, cos_assoc_set, hw_alloc_assoc_set, hw_alloc_assoc_get,
}
use multi_resource_isolation.Alloc.Assoc.Field.{class_in, rmid_half}
use multi_resource_isolation.Alloc.Assoc.RoundTrip.{alloc_assoc_get-set}
use multi_resource_isolation.Alloc.Assign.{
  get_hi_cos_id, get_unused_cos, hw_alloc_assign, used_on, find_unused, common_entity, assign_all,
}
use multi_resource_isolation.Alloc.Assign.Unused.{in_use}
use multi_resource_isolation.Alloc.Assign.Entity.{OnEntity, hw_alloc_assign_lem}
use multi_resource_isolation.Tests.Bench.{
  bench, bench_accepts, bench_registers, platform, powered_on, bank_peek, bench_PerCore,
}

alloc_assoc_get-set_example :
    let (r, s') = hw_alloc_assoc_set bench (platform false 8) 1 6 powered_on in
    (r ≡ ok tt)
    × ((hw_alloc_assoc_get bench (platform false 8) 1 s').0 ≡ ok 6)
    × (class_in bench_registers s' 3 ≡ 0)
    × (rmid_half (bank_peek s' 3 msr_assoc) ≡ 0xC8F)
unfolding check_core l3ca_get_cos_num l2ca_get_cos_num get_type
alloc_assoc_get-set_example =
    alloc_assoc_get-set bench (platform false 8) 1 8 4 true true refl refl refl refl refl
      bench_accepts bench_registers 6 3 powered_on bench_PerCore (omega arith) (inl refl)
      (inl (omega arith))

hw_alloc_assign_lem_example :
    let s' = (hw_alloc_assign bench (platform false 8) 2 (3 ∷ 2 ∷ []) powered_on).1 in
    (id : ℕ) × All (OnEntity (platform false 8) false id) (3 ∷ 2 ∷ [])
    × (1 ≤ 7)
    × (7 ≤ 7)
    × (in_use bench_registers powered_on false id (platform false 8).cpu.cores 7 ≡ false)
    × (class_in bench_registers s' 2 ≡ 7)
    × (rmid_half (bank_peek s' 2 msr_assoc) ≡ 0xC8F)
unfolding get_hi_cos_id l3ca_get_cos_num get_unused_cos used_on find_unused hw_alloc_assign
    common_entity assign_all get_core_info cos_assoc_get cos_assoc_set listed
hw_alloc_assign_lem_example =
    hw_alloc_assign_lem bench (platform false 8) bench_registers bench_PerCore 2 7 refl 3 (2 ∷ [])
      powered_on 2 {class_id = 7} (omega arith) refl
