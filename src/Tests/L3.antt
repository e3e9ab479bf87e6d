-- ===== src/Tests/L3.antt =====
-- L3 classes set and read on the bench.
use multi_resource_isolation.Prelude.{
  ℕ, ◌≤◌, ◌≡◌, refl, true, false, List, [], ◌∷◌, arith, All, inl, inr,
}
use multi_resource_isolation.Types.{ok, err, Retval}
use multi_resource_isolation.Cpu.{get_one_core}
use multi_resource_isolation.Cap.{l3ca_get_cos_num, l3ca_cdp_enabled}
use multi_resource_isolation.Alloc.L3.{L3ca, hw_l3ca_set, hw_l3ca_get}
use multi_resource_isolation.Alloc.L3.Get.{HasWays, HasMasks}
use multi_resource_isolation.Alloc.L3.Registers.{hw_l3ca_set-ways, hw_l3ca_set-total}
use multi_resource_isolation.Alloc.L3.RoundTrip.{l3ca_get-set_ways, l3ca_get-set_cdp}
use multi_resource_isolation.Tests.Bench.{
  bench, bench_accepts, bench_registers, platform, powered_on, bank_peek,
}

abbrev one_mask : ℕ → ℕ → L3ca
one_mask class mask = record { class_id = class; cdp = false; data_mask = mask; code_mask = 0 }

abbrev two_masks : ℕ → ℕ → ℕ → L3ca
two_masks class data_mask code_mask = record {
  class_id = class;
  cdp = true;
  data_mask = data_mask;
  code_mask = code_mask;
}

-- Class 3 twice: the last entry decides.
abbrev ways_list : List L3ca
ways_list = one_mask 3 0xff ∷ one_mask 5 0x3 ∷ one_mask 3 0xf ∷ []

abbrev cdp_list : List L3ca
cdp_list = two_masks 2 0xf0 0x0f ∷ one_mask 1 0x7 ∷ []

abbrev blank : List L3ca
blank =
    one_mask 0 0
    ∷ one_mask 0 0
    ∷ one_mask 0 0
    ∷ one_mask 0 0
    ∷ one_mask 0 0
    ∷ one_mask 0 0
    ∷ one_mask 0 0
    ∷ one_mask 0 0
    ∷ []

l3ca_get-set_ways_example :
    let (r, s') = hw_l3ca_set bench (platform false 8) 1 ways_list powered_on in
    (r ≡ ok tt)
    × ((out : List L3ca) × ((hw_l3ca_get bench (platform false 8) 1 blank s').0 ≡ ok out)
        × HasWays out 3 0xf)
unfolding l3ca_get_cos_num l3ca_cdp_enabled get_one_core
l3ca_get-set_ways_example =
    l3ca_get-set_ways bench (platform false 8) 1 8 2 (true, false) refl refl refl bench_accepts
      bench_registers blank 3 (omega arith) (omega arith) (omega arith) ways_list powered_on refl
      (omega arith) (omega arith) (refl, (refl, (refl, tt)))

l3ca_get-set_cdp_example :
    let (r, s') = hw_l3ca_set bench (platform true 8) 0 cdp_list powered_on in
    (r ≡ ok tt)
    × ((out : List L3ca) × ((hw_l3ca_get bench (platform true 8) 0 blank s').0 ≡ ok out)
        × HasMasks out 2 0xf0 0x0f)
unfolding l3ca_get_cos_num l3ca_cdp_enabled get_one_core
l3ca_get-set_cdp_example =
    l3ca_get-set_cdp bench (platform true 8) 0 8 0 (true, true) refl refl refl bench_accepts
      bench_registers blank 2 (omega arith) (omega arith) (omega arith) cdp_list powered_on refl
      (omega arith) (omega arith) (omega arith)

hw_l3ca_set-ways_example :
    let s' = (hw_l3ca_set bench (platform false 8) 1 ways_list powered_on).1 in
    (3 ≤ 8)
    × All (λ e. e.cdp ≡ false) ways_list
    × (bank_peek s' 3 0xC95 ≡ 0x3)
    × (bank_peek s' 3 0xC81 ≡ 0xC81)
unfolding l3ca_get_cos_num l3ca_cdp_enabled get_one_core
hw_l3ca_set-ways_example =
    hw_l3ca_set-ways bench (platform false 8) 1 8 2 (true, false) refl refl refl bench_registers
      ways_list powered_on 3 5 0xC81 refl (omega arith) (omega arith) (inl (omega arith))
      (hw_l3ca_set-total bench (platform false 8) 1 8 2 (true, false) refl refl refl ways_list
        powered_on bench_accepts (omega arith) (inr (refl, (refl, (refl, tt)))))

-- A table with more entries than classes is refused before any register is written.
set_too_many :
    hw_l3ca_set bench (platform false 2) 1 ways_list powered_on ≡ (err Retval.error, powered_on)
unfolding hw_l3ca_set l3ca_get_cos_num l3ca_cdp_enabled get_one_core
set_too_many = refl
