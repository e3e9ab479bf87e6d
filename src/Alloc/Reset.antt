-- ===== src/Alloc/Reset.antt =====
-- `hw_alloc_reset` of lib/allocation.c and the loops below it.
pub mod Phase
pub mod Keeps
pub mod Loop
pub mod Done
pub mod Classes
use multi_resource_isolation.Prelude.{
  ℕ, zero, suc, ◌+◌, ◌-◌, ◌*◌, ◌^◌, Bool, true, false, not, ◌&&◌, bit_and, bit_or, if◌then◌else◌,
  ltb, u32, List, [], ◌∷◌, Option, none, some,
}
use multi_resource_isolation.Types.{
  Retval, Result, ok, err, Action, pure, lift, fail_if, ◌>>=◌, ◌>>◌,
}
use multi_resource_isolation.Msr.{Msr, msr_mba_mask_start, read_msr, write_msr}
use multi_resource_isolation.Cpu.{Coreinfo, get_sockets, get_l2ids, get_one_core, get_one_by_l2id}
use multi_resource_isolation.Cap.{
  Cap, CapL3ca, CapL2ca, CapMba, l3ca_type, l2ca_type, mba_type, get_type, as_l3ca, as_l2ca, as_mba,
  l3cdp_change,
}
use multi_resource_isolation.Alloc.{
  Platform, msr_l3ca_mask_start, msr_l2ca_mask_start, msr_l3_qos_cfg,
}
use multi_resource_isolation.Alloc.Assign.{after, release_all}

-- `enum pqos_cdp_config`
pub data CdpConfig : Type 0 where
  require_cdp_off require_cdp_on require_cdp_any : CdpConfig

-- A capability that is not there is NULL.
abbrev pub present : {A : Type 0} → Result A → Option A
present (ok a) = some a
present (err e) = none

abbrev pub is_none : {A : Type 0} → Option A → Bool
is_none none = true
is_none (some a) = false

abbrev pub is_any : CdpConfig → Bool
is_any require_cdp_any = true
is_any _ = false

-- CDP is asked for and the L3 capability has none.
abbrev pub cdp_missing : CdpConfig → Option CapL3ca → Bool
cdp_missing require_cdp_on (some c) = not c.cdp
cdp_missing _ _ = false

-- `max_l3_cos`
abbrev pub l3_registers : CapL3ca → ℕ
l3_registers c = if c.cdp && c.cdp_on then u32 (c.num_classes * 2) else c.num_classes

-- `(1ULL << num_ways) - 1ULL`
abbrev pub all_ways : Platform → ℕ → ℕ
all_ways p num_ways = if ltb num_ways 64 then 2 ^ num_ways - 1 else p.undefined.shift64 num_ways

-- Whether CDP is to be switched, and to what.
abbrev pub cdp_switch : CdpConfig → Option CapL3ca → Option Bool
cdp_switch require_cdp_on (some c) = if c.cdp_on then none else some true
cdp_switch require_cdp_off (some c) = if c.cdp_on && c.cdp then some false else none
cdp_switch _ _ = none

abbrev pub lcores_of : List Coreinfo → List ℕ
lcores_of [] = []
lcores_of (c ∷ cs) = c.lcore ∷ lcores_of cs

module _ (m : Msr) where
  -- `alloc_cos_reset`: `n` registers from `reg` on; a failure is reported at the end.
  unfoldable pub alloc_cos_reset : ℕ → ℕ → ℕ → ℕ → Result (Unit {0}) → Action m.State (Unit {0})
  alloc_cos_reset reg zero core v ret s = (ret, s)
  alloc_cos_reset reg (suc n) core v ret s =
      let (r, s') = write_msr m core reg v s in alloc_cos_reset (reg + 1) n core v (after ret r) s'

  -- The loops over sockets and over L2 clusters; `core_of` picks the core to write through.
  unfoldable pub reset_on : (ℕ → Result ℕ) → ℕ → ℕ → ℕ → List ℕ → Action m.State (Unit {0})
  reset_on core_of reg n v [] = pure tt
  reset_on core_of reg n v (id ∷ ids) = do
    core ← lift (core_of id)
    alloc_cos_reset reg n core v (ok tt)
    reset_on core_of reg n v ids

  module _ (p : Platform) where
    -- `cdp_enable`
    unfoldable pub cdp_enable : Bool → List ℕ → Action m.State (Unit {0})
    cdp_enable enable [] = pure tt
    cdp_enable enable (socket ∷ sockets) = do
      core ← lift (get_one_core p.cpu socket)
      reg ← read_msr m core msr_l3_qos_cfg
      write_msr m core msr_l3_qos_cfg (if enable then bit_or reg 1 else bit_and reg (2 ^ 64 - 2))
      cdp_enable enable sockets

    -- `alloc_assoc_reset`
    unfoldable pub alloc_assoc_reset : Action m.State (Unit {0})
    alloc_assoc_reset = release_all m (lcores_of p.cpu.cores) (ok tt)

    abbrev pub reset_l3 : Option CapL3ca → List ℕ → Action m.State (Unit {0})
    reset_l3 none sockets = pure tt
    reset_l3 (some c) sockets =
        reset_on (get_one_core p.cpu) msr_l3ca_mask_start (l3_registers c) (all_ways p c.num_ways)
          sockets

    abbrev pub reset_mba : Option CapMba → List ℕ → Action m.State (Unit {0})
    reset_mba none sockets = pure tt
    reset_mba (some c) sockets =
        reset_on (get_one_core p.cpu) msr_mba_mask_start c.num_classes 0 sockets

    -- CDP is switched on the hardware and in the capability table, which comes back.
    abbrev pub switch_cdp_to : Option Bool → List ℕ → Action m.State Cap
    switch_cdp_to none sockets = pure p.cap
    switch_cdp_to (some enable) sockets = do
      cdp_enable enable sockets
      pure (l3cdp_change (not enable) enable p.cap)

    -- What follows the L2 reset.
    abbrev pub reset_rest : CdpConfig → Option CapL3ca → Option CapMba → List ℕ → Action m.State Cap
    reset_rest cfg l3_cap mba_cap sockets = do
      reset_mba mba_cap sockets
      alloc_assoc_reset
      switch_cdp_to (cdp_switch cfg l3_cap) sockets

    -- The L2 reset over a list of clusters. Without one the whole call ends, with OK.
    abbrev pub reset_l2_ids : CapL2ca → Option (List ℕ) → Action m.State Cap → Action m.State Cap
    reset_l2_ids c none rest = pure p.cap
    reset_l2_ids c (some []) rest = pure p.cap
    reset_l2_ids c (some (id ∷ ids)) rest =
        reset_on (get_one_by_l2id p.cpu) msr_l2ca_mask_start c.num_classes (all_ways p c.num_ways)
          (id ∷ ids)
        >> rest

    abbrev pub reset_l2 : Bool → Option CapL2ca → Action m.State Cap → Action m.State Cap
    reset_l2 granted none rest = rest
    reset_l2 granted (some c) rest = reset_l2_ids c (get_l2ids granted p.cpu) rest

    -- After the checks. Without a list of sockets the call ends, with OK.
    abbrev pub reset_on_sockets :
        Bool
        → CdpConfig
        → Option CapL3ca
        → Option CapL2ca
        → Option CapMba
        → Option (List ℕ)
        → Action m.State Cap
    reset_on_sockets granted cfg l3_cap l2_cap mba_cap none = pure p.cap
    reset_on_sockets granted cfg l3_cap l2_cap mba_cap (some []) = pure p.cap
    reset_on_sockets granted cfg l3_cap l2_cap mba_cap (some (id ∷ ids)) = do
      reset_l3 l3_cap (id ∷ ids)
      reset_l2 granted l2_cap (reset_rest cfg l3_cap mba_cap (id ∷ ids))

    -- `hw_alloc_reset`, with the outcomes of its two allocations; it returns the capability table
    -- as the call leaves it. On an error the table is not changed.
    unfoldable pub hw_alloc_reset : Bool → Bool → CdpConfig → Action m.State Cap
    hw_alloc_reset granted_sockets granted_l2ids cfg =
        let l3_cap = present (as_l3ca (get_type p.interface p.cap l3ca_type)) in
        let l2_cap = present (as_l2ca (get_type p.interface p.cap l2ca_type)) in
        let mba_cap = present (as_mba (get_type p.interface p.cap mba_type)) in
        fail_if (is_none l2_cap && (is_none l3_cap && is_none mba_cap)) Retval.resource
        >> (fail_if (is_none l3_cap && not (is_any cfg)) Retval.resource
            >> (fail_if (cdp_missing cfg l3_cap) Retval.param
                >> reset_on_sockets granted_l2ids cfg l3_cap l2_cap mba_cap
                    (get_sockets granted_sockets p.cpu)))
