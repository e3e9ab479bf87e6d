-- ===== src/Rctl/Groups.antt =====
-- `resctrl_alloc_get_grps_num` of lib/resctrl_alloc.c: how many classes resctrl has, the least
-- number of classes of the technologies that it supports.
use multi_resource_isolation.Prelude.{ℕ, not, ltb, ◌==◌, if◌then◌else◌, List, [], ◌∷◌}
use multi_resource_isolation.Types.{Result, ok, err}
use multi_resource_isolation.Cap.{
  Interface, Cap, Capability, CapItem, mon_item, l3ca_item, l2ca_item, mba_item, l3ca_get_cos_num,
  l2ca_get_cos_num, mba_get_cos_num,
}

-- `if (max_rctl_grps == 0) ... else if (num_cos < max_rctl_grps) ...`
abbrev pub fewer : ℕ → ℕ → ℕ
fewer max_rctl_grps num_cos =
    if max_rctl_grps == 0
    then num_cos
    else if ltb num_cos max_rctl_grps
    then num_cos
    else max_rctl_grps

-- The query that the code makes for a capability of the list, by its type.
abbrev pub cos_num_of : Interface → Cap → CapItem → ℕ → Result ℕ
cos_num_of i cap (mon_item m) grps = ok grps
cos_num_of i cap (l3ca_item c) grps = elim (l3ca_get_cos_num i cap) [
  | ok n ↦ ok (fewer grps n)
  | err e ↦ err e
]
cos_num_of i cap (l2ca_item c) grps = elim (l2ca_get_cos_num i cap) [
  | ok n ↦ ok (fewer grps n)
  | err e ↦ err e
]
cos_num_of i cap (mba_item c) grps = elim (mba_get_cos_num i cap) [
  | ok n ↦ ok (fewer grps n)
  | err e ↦ err e
]

pub grps_in : Interface → Cap → List Capability → ℕ → Result ℕ
grps_in i cap [] grps = ok grps
grps_in i cap (c ∷ cs) grps =
    if not c.os_support
    then grps_in i cap cs grps
    else elim (cos_num_of i cap c.u grps) [ ok n ↦ grps_in i cap cs n | err e ↦ err e ]

unfoldable pub get_grps_num : Interface → Cap → Result ℕ
unfolding grps_in
get_grps_num i cap = grps_in i cap cap.capabilities 0
