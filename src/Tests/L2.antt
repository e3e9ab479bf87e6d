-- ===== src/Tests/L2.antt =====
-- L2 classes and memory bandwidth on the bench.
use multi_resource_isolation.Prelude.{
  ℕ, ◌+◌, ◌≤◌, ◌≡◌, refl, true, false, List, [], ◌∷◌, arith, some, get_elem?,
}
use multi_resource_isolation.Types.{ok}
use multi_resource_isolation.Cpu.{get_one_by_l2id}
use multi_resource_isolation.Cap.{l2ca_get_cos_num, CapMba}
use multi_resource_isolation.Alloc.L2.{L2ca, hw_l2ca_set, hw_l2ca_get}
use multi_resource_isolation.Alloc.L2.Get.{l2ca_get-set}
use multi_resource_isolation.Alloc.Mba.{Mba, rate_of, throttled}
use multi_resource_isolation.Alloc.Mba.Rate.{throttled_lem, throttled_wraps}
use multi_resource_isolation.Tests.Bench.{
  bench, bench_accepts, bench_registers, platform, powered_on, mba_cap,
}

abbrev l2_mask : ℕ → ℕ → L2ca
l2_mask class mask = record { class_id = class; ways_mask = mask }

abbrev l2_list : List L2ca
l2_list = l2_mask 1 0xf ∷ l2_mask 3 0x3 ∷ l2_mask 1 0xf0 ∷ []

l2ca_get-set_example :
    let (r, s') = hw_l2ca_set bench (platform false 8) 2 l2_list powered_on in
    (r ≡ ok tt)
    × ((out : List L2ca) × ((hw_l2ca_get bench (platform false 8) 2 16 s').0 ≡ ok out)
        × (get_elem? out 1 ≡ some (l2_mask 1 0xf0)))
unfolding l2ca_get_cos_num get_one_by_l2id
l2ca_get-set_example =
    l2ca_get-set bench (platform false 8) 2 4 2 refl refl bench_accepts bench_registers l2_list
      powered_on 1 16 (omega arith) (omega arith, (omega arith, (omega arith, tt))) (omega arith)
      (omega arith) refl

-- A rate of 57% with steps of 10% comes back as 60%.
throttled_lem_example :
    (rate_of (throttled mba_cap 57) ≡ 60)
    × (throttled mba_cap 57 ≤ 90)
    × (60 ≤ 57 + 5)
    × (57 ≤ 60 + 5)
throttled_lem_example = throttled_lem mba_cap 57 (omega arith) refl (omega arith) (omega arith)

-- A step of 40%, which cap.c derives from a largest throttling of 60%.
abbrev coarse : CapMba
coarse = record { num_classes = 8; throttle_max = 60; throttle_step = 40; is_linear = true }

throttled_wraps_example : throttled coarse 100 ≡ 60
throttled_wraps_example =
    throttled_wraps coarse 100 (omega arith) (omega arith) (omega arith) (omega arith) (omega arith)

abbrev requests : List Mba
requests = record { class_id = 2; mb_rate = 50 } ∷ record { class_id = 0; mb_rate = 33 } ∷ []
