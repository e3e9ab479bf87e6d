-- ===== src/Alloc/L2.antt =====
-- `hw_l2ca_set` and `hw_l2ca_get` of lib/allocation.c.
pub mod Set
pub mod Get
use multi_resource_isolation.Prelude.{
  ℕ, zero, suc, ◌+◌, Bool, true, false, List, [], ◌∷◌, ltb, leb, if◌then◌else◌, length, u32,
}
use multi_resource_isolation.Types.{
  Retval, Result, ok, err, Action, pure, fail, lift, fail_if, ◌>>=◌, ◌>>◌,
}
use multi_resource_isolation.Msr.{Msr, read_msr, write_msr}
use multi_resource_isolation.Cpu.{get_one_by_l2id}
use multi_resource_isolation.Cap.{l2ca_get_cos_num}
use multi_resource_isolation.Alloc.{Platform, msr_l2ca_mask_start}

-- `struct pqos_l2ca`; `ways_mask` is a `uint32_t`.
pub record L2ca : Type 0 where
  pub class_id : ℕ
  pub ways_mask : ℕ

-- Any code of `pqos_l2ca_get_cos_num` but OK becomes RESOURCE.
abbrev pub or_resource : {A : Type 0} → Result A → Result A
or_resource (ok a) = ok a
or_resource (err e) = err Retval.resource

-- The check of the class ids, before anything is written.
abbrev pub out_of_range : ℕ → List L2ca → Bool
out_of_range count [] = false
out_of_range count (ca ∷ cas) = if leb count ca.class_id then true else out_of_range count cas

module _ (m : Msr) where
  unfoldable pub set_l2 : ℕ → List L2ca → Action m.State (Unit {0})
  set_l2 core [] = pure tt
  set_l2 core (ca ∷ cas) = do
    write_msr m core (u32 (ca.class_id + msr_l2ca_mask_start)) ca.ways_mask
    set_l2 core cas

  -- `n` rounds left, class `i`; the caller's table has an entry for each round.
  unfoldable pub get_l2 : ℕ → ℕ → ℕ → Action m.State (List L2ca)
  get_l2 core zero i = pure []
  get_l2 core (suc n) i = do
    val ← read_msr m core (u32 (msr_l2ca_mask_start + i))
    rest ← get_l2 core n (i + 1)
    pure (record { class_id = i; ways_mask = u32 val } ∷ rest)

  module _ (p : Platform) where
    unfoldable pub hw_l2ca_set : ℕ → List L2ca → Action m.State (Unit {0})
    hw_l2ca_set l2id ca = do
      count ← lift (or_resource (l2ca_get_cos_num p.interface p.cap))
      fail_if (out_of_range count ca) Retval.param
      core ← lift (get_one_by_l2id p.cpu l2id)
      set_l2 core ca

    -- `max_num_ca` is the room in the caller's table, all of whose entries are overwritten.
    unfoldable pub hw_l2ca_get : ℕ → ℕ → Action m.State (List L2ca)
    hw_l2ca_get l2id max_num_ca = do
      count ← lift (or_resource (l2ca_get_cos_num p.interface p.cap))
      fail_if (ltb max_num_ca count) Retval.param
      core ← lift (get_one_by_l2id p.cpu l2id)
      get_l2 core count 0
