-- ===== src/Tests/Reset.antt =====
-- The reset and the search for the fewest mask bits on the bench.
use multi_resource_isolation.Prelude.{
  ◌≤◌, ◌≡◌, ◌-◌, ◌^◌, refl, true, false, List, [], ◌∷◌, arith, inl, inr,
}
use multi_resource_isolation.Types.{ok}
use multi_resource_isolation.Cpu.{get_sockets, get_l2ids, get_one_core, get_one_by_l2id, listed}
use multi_resource_isolation.Cap.{
  get_type, l3cdp_change, as_l3ca, l3ca_type, CapL3ca, l3ca_get_cos_num, l3ca_cdp_enabled,
}
use multi_resource_isolation.Alloc.Assoc.Field.{class_in}
use multi_resource_isolation.Alloc.Assoc.{cos_assoc_set}
use multi_resource_isolation.Alloc.Assign.{release_all}
use multi_resource_isolation.Alloc.Reset.{
  CdpConfig, hw_alloc_reset, alloc_cos_reset, reset_on, cdp_enable, alloc_assoc_reset,
}
use multi_resource_isolation.Alloc.Reset.Done.{hw_alloc_reset_lem}
use multi_resource_isolation.Alloc.Reset.Classes.{hw_alloc_reset-class_in}
use multi_resource_isolation.Alloc.Assoc.{cos_assoc_get}
use multi_resource_isolation.Alloc.Assign.{get_hi_cos_id, get_unused_cos, used_on, find_unused}
use multi_resource_isolation.Alloc.L3.{L3ca, hw_l3ca_set, hw_l3ca_get, set_ways, get_ways}
use multi_resource_isolation.Alloc.MinCbm.{
  l3_technology, hw_l3ca_get_min_cbm_bits, find_free, any_holds, probe, restore, search_from,
}
use multi_resource_isolation.Alloc.MinCbm.Search.{Searched, hw_l3ca_get_min_cbm_bits-Searched}
use multi_resource_isolation.Tests.Bench.{
  bench, bench_registers, platform, powered_on, bank_peek, bench_PerCore, l3_cap, caps,
}

hw_alloc_reset_lem_example :
    bank_peek
      (hw_alloc_reset bench (platform true 8) true true CdpConfig.require_cdp_off powered_on).1
      3
      0xC95
    ≡ 0x7ff
unfolding hw_alloc_reset get_sockets get_l2ids get_one_core get_one_by_l2id get_type reset_on
    alloc_cos_reset alloc_assoc_reset cdp_enable release_all cos_assoc_set l3cdp_change
hw_alloc_reset_lem_example =
    hw_alloc_reset_lem bench bench_registers (platform true 8) CdpConfig.require_cdp_off
      (l3_cap true 8) true powered_on (caps false 16) 0 1 2 3 0xC95 (1 ∷ []) refl refl refl
      (inr (inl refl)) refl refl (omega arith) (omega arith) (omega arith, omega arith)

hw_alloc_reset-class_in_example :
    class_in bench_registers
      (hw_alloc_reset bench (platform true 8) true true CdpConfig.require_cdp_any powered_on).1
      3
    ≡ 0
unfolding hw_alloc_reset get_sockets get_l2ids get_one_core get_one_by_l2id get_type reset_on
    alloc_cos_reset alloc_assoc_reset cdp_enable release_all cos_assoc_set listed
hw_alloc_reset-class_in_example =
    hw_alloc_reset-class_in bench bench_registers bench_PerCore (platform true 8)
      CdpConfig.require_cdp_any true powered_on (caps true 8) 0 3 (1 ∷ []) refl refl
      (inr (0, 1 ∷ 2 ∷ 3 ∷ [], refl)) refl

abbrev blank_entry : L3ca
blank_entry = record { class_id = 0; cdp = false; data_mask = 0; code_mask = 0 }

abbrev blanks : List L3ca
blanks =
    blank_entry ∷ blank_entry ∷ blank_entry ∷ blank_entry ∷ blank_entry ∷ blank_entry ∷ blank_entry
    ∷ []

hw_l3ca_get_min_cbm_bits-Searched_example :
    (l3 : CapL3ca) × (as_l3ca
        (get_type (platform false 8).interface (platform false 8).cap l3ca_type)
      ≡ ok l3)
    × (1 ≤ 1)
    × (1 ≤ l3.num_ways)
    × Searched
        (l3_technology bench (platform false 8) blank_entry blanks)
        powered_on
        1
        (hw_l3ca_get_min_cbm_bits bench (platform false 8) true blank_entry blanks powered_on).1
    × ((l3_technology bench (platform false 8) blank_entry blanks).mask_of 3 ≡ 2 ^ 3 - 1)
unfolding hw_l3ca_get_min_cbm_bits find_free any_holds probe restore search_from get_sockets
    get_one_core get_type l3ca_get_cos_num l3ca_cdp_enabled get_hi_cos_id get_unused_cos used_on
    find_unused cos_assoc_get hw_l3ca_set hw_l3ca_get get_ways set_ways
hw_l3ca_get_min_cbm_bits-Searched_example =
    hw_l3ca_get_min_cbm_bits-Searched bench (platform false 8) true blank_entry blanks powered_on 1
      3 refl (omega arith)
