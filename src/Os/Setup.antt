-- ===== src/Os/Setup.antt =====
-- lib/os_allocation.c: mounting resctrl and making its groups, and the reset, which does both again.
use multi_resource_isolation.Prelude.{
  ℕ, zero, suc, ◌+◌, ◌-◌, Bool, true, false, not, ◌&&◌, ◌||◌, if◌then◌else◌, List, [], ◌∷◌, Option,
  none, some, length,
}
use multi_resource_isolation.Types.{
  Retval, Result, ok, err, Action, lift, fail, fail_if, ◌>>=◌, ◌>>◌,
}
use multi_resource_isolation.Cpu.{Cpuinfo}
use multi_resource_isolation.Cap.{
  Interface, Cap, Capability, mon_item, CapL3ca, as_l3ca, as_l2ca, get_type, l3ca_type, l2ca_type,
  l3cdp_change,
}
use multi_resource_isolation.Alloc.Reset.{
  CdpConfig, require_cdp_off, require_cdp_on, require_cdp_any, present, is_none, is_any,
  cdp_missing,
}
use multi_resource_isolation.Rctl.{Files}
use multi_resource_isolation.Rctl.Groups.{get_grps_num}
use multi_resource_isolation.Rctl.Cpumask.{cpumask_set, cpumask_read, cpumask_write}

-- The calls of the system: whether a file or a directory is there, and `mkdir`, `mount` (with the
-- option `cdp` or without) and `umount2`, with `false` for a failure.
pub record System (S : Type 0) : Type 0 where
  pub mounted : S → Bool
  pub group_exists : ℕ → S → Bool
  pub mkdir : ℕ → S → Bool × S
  pub mount : Bool → S → Bool × S
  pub umount : S → Bool × S

abbrev pub os_supported : List Capability → Bool
os_supported [] = false
os_supported (c ∷ cs) =
    (c.os_support && elim (c.u) [ mon_item m ↦ false | _ ↦ true ]) || os_supported cs

-- The mount option for a setting that is on or off.
abbrev pub config_of : Bool → CdpConfig
config_of true = require_cdp_on
config_of false = require_cdp_off

abbrev pub is_on : Option CapL3ca → Bool
is_on none = false
is_on (some c) = c.cdp_on

-- `cdp_mount` of the reset.
abbrev pub cdp_after : CdpConfig → Bool → Bool
cdp_after require_cdp_on current = true
cdp_after require_cdp_any current = current
cdp_after require_cdp_off current = false

abbrev pub differ : Bool → Bool → Bool
differ a true = not a
differ a false = a

-- The mask with cores 0 to `n - 1`.
unfoldable pub with_first : ℕ → List ℕ → List ℕ
with_first zero mask = mask
with_first (suc n) mask = cpumask_set n (with_first n mask)

module _ {S : Type 0} (sys : System S) (i : Interface) where
  abbrev pub checked : Retval → (S → Bool × S) → Action S (Unit {0})
  checked e f s = let (done, s') = f s in (if done then ok tt else err e, s')

  unfoldable pub os_interface_mount : Cap → CdpConfig → Action S (Unit {0})
  os_interface_mount cap require_cdp_any = fail Retval.param
  os_interface_mount cap require_cdp_off = checked Retval.error (sys.mount false)
  os_interface_mount cap require_cdp_on = do
    fail_if (cdp_missing require_cdp_on (present (as_l3ca (get_type i cap l3ca_type)))) Retval.param
    checked Retval.error (sys.mount true)

  -- Any failure to mount is RESOURCE.
  unfoldable pub os_alloc_check : Cap → Action S (Unit {0})
  os_alloc_check cap s =
      let cdp_on = is_on (present (as_l3ca (get_type i cap l3ca_type))) in
      let (r, s') = os_interface_mount cap (config_of cdp_on) s in
      if not (os_supported cap.capabilities)
      then (ok tt, s)
      else if sys.mounted s
      then (ok tt, s)
      else (elim r [ ok u ↦ ok tt | err e ↦ err Retval.resource ], s')

  -- The loop of `os_alloc_prep`: `n` rounds left, class `class_id`.
  unfoldable pub make_groups : ℕ → ℕ → Action S (Unit {0})
  make_groups zero class_id s = (ok tt, s)
  make_groups (suc n) class_id s =
      let there = make_groups n (class_id + 1) s in
      let made =
        (checked Retval.busy (sys.mkdir class_id) >>= λ u. make_groups n (class_id + 1)) s in
      if sys.group_exists class_id s then there else made

  unfoldable pub os_alloc_prep : Cap → Action S (Unit {0})
  os_alloc_prep cap = do num_grps ← lift (get_grps_num i cap); make_groups (num_grps - 1) 1

  unfoldable pub os_alloc_init : Option Cpuinfo → Option Cap → Action S (Unit {0})
  os_alloc_init (some cpu) (some cap) = do os_alloc_check cap; os_alloc_prep cap
  os_alloc_init _ _ = fail Retval.param

  -- The end of the reset: mount, change the capability table, make the groups. A table that was
  -- changed comes back on an error of the last step too.
  unfoldable pub remount : Cap → Bool → Bool → S → Result (Unit {0}) × Cap × S
  remount cap cdp_current cdp_mount s =
      let (r, s') = os_interface_mount cap (config_of cdp_mount) s in
      let cap' =
        if differ cdp_mount cdp_current then l3cdp_change cdp_current cdp_mount cap else cap in
      let (r', s'') = os_alloc_prep cap' s' in
      elim r [ err e ↦ (err e, cap, s') | ok u ↦ (r', cap', s'') ]

  module _ (fs : Files S) (cpu : Cpuinfo) where
    -- Cores back to class 0, and resctrl unmounted. The C code returns the -1 of a failed `umount2`,
    -- which is no PQOS_RETVAL_* code and stands here as ERROR.
    unfoldable pub os_unset : Action S (Unit {0})
    os_unset = do
      mask ← cpumask_read fs 0
      cpumask_write fs 0 (with_first (length cpu.cores) mask)
      checked Retval.error (sys.umount)

    unfoldable pub os_alloc_reset : Cap → CdpConfig → S → Result (Unit {0}) × Cap × S
    os_alloc_reset cap cfg s =
        let l3_cap = present (as_l3ca (get_type i cap l3ca_type)) in
        let l2_cap = present (as_l2ca (get_type i cap l2ca_type)) in
        let (r, s') = os_unset s in
        if is_none l2_cap && is_none l3_cap
        then (err Retval.resource, cap, s)
        else if is_none l3_cap && not (is_any cfg)
        then (err Retval.resource, cap, s)
        else if cdp_missing cfg l3_cap
        then (err Retval.param, cap, s)
        else elim r [
          | err e ↦ (err e, cap, s')
          | ok u ↦ remount cap (is_on l3_cap) (cdp_after cfg (is_on l3_cap)) s'
        ]
