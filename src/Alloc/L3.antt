-- ===== src/Alloc/L3.antt =====
-- `hw_l3ca_set` and `hw_l3ca_get` of lib/allocation.c.
pub mod Set
pub mod Get
pub mod RoundTrip
pub mod Registers
use multi_resource_isolation.Prelude.{
  ℕ, zero, suc, ◌+◌, ◌*◌, Bool, true, false, List, [], ◌∷◌, ltb, if◌then◌else◌, length, u32,
}
use multi_resource_isolation.Types.{Retval, Action, pure, lift, fail_if, ◌>>=◌, ◌>>◌}
use multi_resource_isolation.Msr.{Msr, read_msr, write_msr}
use multi_resource_isolation.Cpu.{get_one_core}
use multi_resource_isolation.Cap.{l3ca_get_cos_num, l3ca_cdp_enabled}
use multi_resource_isolation.Alloc.{Platform, msr_l3ca_mask_start}

-- `struct pqos_l3ca`. The union member `ways_mask` shares its storage with `s.data_mask`.
pub record L3ca : Type 0 where
  pub class_id : ℕ
  pub cdp : Bool
  pub data_mask : ℕ
  pub code_mask : ℕ

abbrev pub ways_mask : L3ca → ℕ
ways_mask ca = ca.data_mask

module _ (m : Msr) where
  -- The loop of `hw_l3ca_set` where CDP is enabled.
  pub set_cdp : ℕ → List L3ca → Action m.State (Unit {0})
  set_cdp core [] = pure tt
  set_cdp core (ca ∷ cas) = do
    let reg = u32 (u32 (ca.class_id * 2) + msr_l3ca_mask_start)
    write_msr m core reg (if ca.cdp then ca.data_mask else ways_mask ca)
    write_msr m core (u32 (reg + 1)) (if ca.cdp then ca.code_mask else ways_mask ca)
    set_cdp core cas

  -- The loop where CDP is disabled.
  unfoldable pub set_ways : ℕ → List L3ca → Action m.State (Unit {0})
  set_ways core [] = pure tt
  set_ways core (ca ∷ cas) = do
    fail_if ca.cdp Retval.error
    write_msr m core (u32 (ca.class_id + msr_l3ca_mask_start)) (ways_mask ca)
    set_ways core cas

  -- The loops of `hw_l3ca_get`: `n` rounds left, class `i` in register `reg`, and the entries of the
  -- caller's table that are written. It has an entry for each round (`count <= max_num_ca`).
  pub get_cdp : ℕ → ℕ → ℕ → ℕ → List L3ca → Action m.State (List L3ca)
  get_cdp core zero i reg table = pure []
  get_cdp core (suc n) i reg [] = pure []
  get_cdp core (suc n) i reg (ca ∷ table) = do
    data_val ← read_msr m core reg
    code_val ← read_msr m core (u32 (reg + 1))
    rest ← get_cdp core n (i + 1) (u32 (reg + 2)) table
    pure (record { class_id = i; cdp = true; data_mask = data_val; code_mask = code_val } ∷ rest)

  unfoldable pub get_ways : ℕ → ℕ → ℕ → ℕ → List L3ca → Action m.State (List L3ca)
  get_ways core zero i reg table = pure []
  get_ways core (suc n) i reg [] = pure []
  get_ways core (suc n) i reg (ca ∷ table) = do
    val ← read_msr m core reg
    rest ← get_ways core n (i + 1) (u32 (reg + 1)) table
    pure (record ca { class_id = i; cdp = false; data_mask = val } ∷ rest)

  module _ (p : Platform) where
    -- The table `ca` has `num_ca` entries.
    unfoldable pub hw_l3ca_set : ℕ → List L3ca → Action m.State (Unit {0})
    hw_l3ca_set socket ca = do
      count ← lift (l3ca_get_cos_num p.interface p.cap)
      fail_if (ltb count (length ca)) Retval.error
      cdp ← lift (l3ca_cdp_enabled p.interface p.cap)
      core ← lift (get_one_core p.cpu socket)
      if cdp.1 then set_cdp core ca else set_ways core ca

    -- The table `ca` has `max_num_ca` entries; the first `*num_ca` of them come back.
    unfoldable pub hw_l3ca_get : ℕ → List L3ca → Action m.State (List L3ca)
    hw_l3ca_get socket ca = do
      count ← lift (l3ca_get_cos_num p.interface p.cap)
      cdp ← lift (l3ca_cdp_enabled p.interface p.cap)
      fail_if (ltb (length ca) count) Retval.error
      core ← lift (get_one_core p.cpu socket)
      if cdp.1
          then get_cdp core count 0 msr_l3ca_mask_start ca
          else get_ways core count 0 msr_l3ca_mask_start ca
