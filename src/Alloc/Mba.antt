-- ===== src/Alloc/Mba.antt =====
-- `hw_mba_set` and `hw_mba_get` of lib/allocation.c.
pub mod Rate
pub mod Set
use multi_resource_isolation.Prelude.{
  ℕ, zero, suc, ◌+◌, ◌-◌, ◌*◌, ◌/◌, ◌^◌, Bool, true, false, not, List, [], ◌∷◌, ◌++◌, ltb, leb,
  if◌then◌else◌, u32, u64,
}
use multi_resource_isolation.Types.{Retval, Result, Action, pure, lift, fail_if, ◌>>=◌, ◌>>◌}
use multi_resource_isolation.Msr.{Msr, msr_mba_mask_start, read_msr, write_msr}
use multi_resource_isolation.Cpu.{get_one_core}
use multi_resource_isolation.Cap.{CapMba, mba_type, get_type, as_mba, mba_get_cos_num}
use multi_resource_isolation.Alloc.{Platform, mba_linear_max}
use multi_resource_isolation.Alloc.L2.{or_resource}

-- `struct pqos_mba`; the rate is a percentage of the bandwidth.
pub record Mba : Type 0 where
  pub class_id : ℕ
  pub mb_rate : ℕ

-- The delay written for a rate: `PQOS_MBA_LINEAR_MAX - (((mb_rate + (step/2)) / step) * step)`, in
-- 32-bit unsigned arithmetic. A `step` of 0 faults in C; the theorems exclude it.
unfoldable pub delay_of : ℕ → ℕ → ℕ
delay_of step mb_rate = u32 (mba_linear_max + 2 ^ 32 - u32 (u32 (mb_rate + step / 2) / step * step))

-- `if (val > throttle_max) val = throttle_max;`
unfoldable pub throttled : CapMba → ℕ → ℕ
unfolding delay_of
throttled c mb_rate =
    let val = delay_of c.throttle_step mb_rate in
    if ltb c.throttle_max val then c.throttle_max else val

-- The rate read from a register: `PQOS_MBA_LINEAR_MAX - val`, in 64 bits, kept as `unsigned`.
abbrev pub rate_of : ℕ → ℕ
rate_of val = u32 (u64 (mba_linear_max + 2 ^ 64 - val))

abbrev pub out_of_range : ℕ → List Mba → Bool
out_of_range count [] = false
out_of_range count (r ∷ rs) = if leb count r.class_id then true else out_of_range count rs

module _ (m : Msr) where
  -- The entry of `actual` for one class, read back where the caller passed a table.
  abbrev pub read_back : ℕ → ℕ → Mba → Bool → Action m.State (List Mba)
  read_back core reg r true = do
    val ← read_msr m core reg
    pure (record r { mb_rate = rate_of val } ∷ [])
  read_back core reg r false = pure []

  unfoldable pub set_mba : ℕ → CapMba → Bool → List Mba → Action m.State (List Mba)
  set_mba core c wanted [] = pure []
  set_mba core c wanted (r ∷ rs) = do
    let reg = u32 (r.class_id + msr_mba_mask_start)
    write_msr m core reg (throttled c r.mb_rate)
    entry ← read_back core reg r wanted
    rest ← set_mba core c wanted rs
    pure (entry ++ rest)

  unfoldable pub get_mba : ℕ → ℕ → ℕ → Action m.State (List Mba)
  get_mba core zero i = pure []
  get_mba core (suc n) i = do
    val ← read_msr m core (u32 (msr_mba_mask_start + i))
    rest ← get_mba core n (i + 1)
    pure (record { class_id = i; mb_rate = rate_of val } ∷ rest)

  module _ (p : Platform) where
    -- `wanted` says whether the caller passed a table `actual`, which comes back.
    unfoldable pub hw_mba_set : ℕ → List Mba → Bool → Action m.State (List Mba)
    hw_mba_set socket requested wanted = do
      c ← lift (or_resource (as_mba (get_type p.interface p.cap mba_type)))
      fail_if (not c.is_linear) Retval.resource
      fail_if (out_of_range c.num_classes requested) Retval.param
      core ← lift (get_one_core p.cpu socket)
      set_mba core c wanted requested

    unfoldable pub hw_mba_get : ℕ → ℕ → Action m.State (List Mba)
    hw_mba_get socket max_num_cos = do
      count ← lift (mba_get_cos_num p.interface p.cap)
      fail_if (ltb max_num_cos count) Retval.error
      core ← lift (get_one_core p.cpu socket)
      get_mba core count 0
