-- ===== src/Tests/Info.antt =====
-- The core table of two processors, of which the task cannot be put on the second.
use multi_resource_isolation.Prelude.{
  ℕ, ◌≡◌, refl, true, Option, [], ◌∷◌, arith, ◌==◌, if◌then◌else◌,
}
use multi_resource_isolation.Cpu.{Cpuinfo}
use multi_resource_isolation.Info.{
  CpuidOut, Processors, ApicInfo, Caches, ended, detect_apic_masks, cache_of,
}
use multi_resource_isolation.Info.Ends.{detect_apic_masks_total}

abbrev out : ℕ → ℕ → ℕ → ℕ → CpuidOut
out a b c d = record { eax = a; ebx = b; ecx = c; edx = d }

-- Leaf 0xB: one bit for the thread, four for the core; leaf 4: L1 and L2 for two threads, L3 for 16.
abbrev leaf : ℕ → ℕ → CpuidOut
leaf n subleaf =
    if n == 0xB
    then (if subleaf == 0
        then out 1 2 0x100 0x25
        else if subleaf == 1
        then out 4 8 0x201 0x25
        else out 0 0 0 0x25)
    else if n == 4
    then (if subleaf == 0
        then out 0x4021 0x1C0003F 63 0
        else if subleaf == 1
        then out 0x4043 0x1C0003F 511 0
        else if subleaf == 2
        then out 0x3C063 0x4C0003F 1023 0
        else out 0 0 0 0)
    else out 0 0 0 0

abbrev two : Processors
two = record {
  count = 2;
  here = 0;
  get_affinity = true;
  set_affinity = λ cpu. cpu == 0;
  restore_affinity = true;
  cpuid = λ cpu n subleaf. leaf n subleaf;
}

detect_apic_masks_total_example :
    (o : Option (ApicInfo × Caches)) × (detect_apic_masks two 4 ≡ ended o)
detect_apic_masks_total_example =
    detect_apic_masks_total two 4 2 3 (omega arith) (omega arith) refl refl

abbrev two_cpu : Cpuinfo
two_cpu = record {
  l2 = cache_of (leaf 4 1);
  l3 = cache_of (leaf 4 2);
  cores = record { lcore = 0; socket = 2; l3_id = 2; l2_id = 18 } ∷ [];
}
