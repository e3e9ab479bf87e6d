-- ===== src/Cap/Cdp.antt =====
-- `_pqos_cap_l3cdp_change` of lib/cap.c: what it does to the L3 queries, and that it can be undone.
use multi_resource_isolation.Prelude.{
  ◌/◌, ◌%◌, ◌≡◌, refl, ap, Bool, true, false, List, [], ◌∷◌, arith,
}
use multi_resource_isolation.Types.{ok}
use multi_resource_isolation.Cap.{
  msr, CapL3ca, l3ca_type, CapItem, mon_item, l3ca_item, l2ca_item, mba_item, Capability, Cap,
  type_in, get_type, l3ca_get_cos_num, l3ca_cdp_enabled, switch_cdp, switch_first, l3cdp_change,
}
use multi_resource_isolation.Cap.Query.{l3ca_entry}

-- What the two L3 queries see through the MSR interface.
abbrev SeesL3 : List Capability → CapL3ca → Type 0
SeesL3 cs m = (support : Bool) × (type_in msr l3ca_type cs ≡ ok (l3ca_entry support m))

sees_step :
    (prev next support : Bool) (item : CapItem) (cs : List Capability) (m : CapL3ca)
    → (SeesL3 cs m → SeesL3 (switch_first prev next cs) (switch_cdp prev next m))
    → SeesL3 (record { os_support = support; u = item } ∷ cs) m
    → SeesL3
        (switch_first prev next (record { os_support = support; u = item } ∷ cs))
        (switch_cdp prev next m)
unfolding type_in switch_first
sees_step prev next support (l3ca_item l) cs m ih (b, e) =
    (support, cc (let same : l ≡ m = ground arith in same))
sees_step prev next support (mon_item l) cs m ih e = ih e
sees_step prev next support (l2ca_item l) cs m ih e = ih e
sees_step prev next support (mba_item l) cs m ih e = ih e

switch_first-sees :
    (prev next : Bool) (cs : List Capability) (m : CapL3ca)
    → SeesL3 cs m
    → SeesL3 (switch_first prev next cs) (switch_cdp prev next m)
unfolding type_in switch_first
switch_first-sees prev next [] m (b, e) = cc
switch_first-sees prev next (c ∷ cs) m e =
    sees_step prev next c.os_support c.u cs m (switch_first-sees prev next cs m) e

restore_step :
    (support : Bool) (item : CapItem) (cs : List Capability) {m : CapL3ca}
    → (SeesL3 cs m → switch_first true false (switch_first false true cs) ≡ cs)
    → SeesL3 (record { os_support = support; u = item } ∷ cs) m
    → m.cdp_on ≡ false
    → m.num_classes % 2 ≡ 0
    → switch_first true false
        (switch_first false true (record { os_support = support; u = item } ∷ cs))
      ≡ record { os_support = support; u = item } ∷ cs
unfolding type_in switch_first
restore_step support (l3ca_item l) cs ih (b, e) off even = ground arith
restore_step support (mon_item l) cs ih e off even =
    ap (λ r. record { os_support = support; u = mon_item l } ∷ r) (ih e)
restore_step support (l2ca_item l) cs ih e off even =
    ap (λ r. record { os_support = support; u = l2ca_item l } ∷ r) (ih e)
restore_step support (mba_item l) cs ih e off even =
    ap (λ r. record { os_support = support; u = mba_item l } ∷ r) (ih e)

switch_restores :
    (cs : List Capability) {m : CapL3ca}
    → SeesL3 cs m
    → m.cdp_on ≡ false
    → m.num_classes % 2 ≡ 0
    → switch_first true false (switch_first false true cs) ≡ cs
unfolding switch_first
switch_restores [] e off even = refl
switch_restores (c ∷ cs) {m} e off even =
    restore_step c.os_support c.u cs {m = m} (λ s. switch_restores cs {m = m} s off even) e off even

-- Turning CDP on halves the classes that the L3 queries report and sets the flag; turning it off
-- again gives the old table back, where the number of classes was even and CDP was off.
l3cdp_change_restores :
    (cap : Cap) (support : Bool) (m : CapL3ca)
    → get_type msr cap l3ca_type ≡ ok (l3ca_entry support m)
    → m.cdp_on ≡ false
    → m.num_classes % 2 ≡ 0
    → let on = l3cdp_change false true cap in
      (l3ca_get_cos_num msr on ≡ ok (m.num_classes / 2))
      × (l3ca_cdp_enabled msr on ≡ ok (m.cdp, true))
      × (l3cdp_change true false on ≡ cap)
unfolding get_type l3cdp_change l3ca_get_cos_num l3ca_cdp_enabled
l3cdp_change_restores cap support m e off even =
    let (b, seen) = switch_first-sees false true cap.capabilities m (support, e) in
    (
      rw seen refl,
      rw seen refl,
      ap (λ c. record cap { capabilities = c })
          (switch_restores cap.capabilities {m = m} (support, e) off even),
    )
