-- ===== src/Alloc/L2/Set.antt =====
-- What `hw_l2ca_set` leaves in the L2 mask registers.
use multi_resource_isolation.Prelude.{
  ℕ, ◌+◌, ◌^◌, ◌≤◌, ◌<◌, ◌≡◌, ◌≢◌, refl, ap, ◌∙◌, false, List, [], ◌∷◌, All, arith, u32,
  if◌then◌else◌, ◌==◌, ◌⊎◌,
}
use multi_resource_isolation.Types.{ok, err, Retval, Action, ◌>>◌}
use multi_resource_isolation.Msr.{Msr, Registers, write_msr}
use multi_resource_isolation.Msr.Writes.{
  Writes, last, Exact, write_all, register_after, register_kept,
}
use multi_resource_isolation.Cpu.{get_one_by_l2id}
use multi_resource_isolation.Cap.{l2ca_get_cos_num}
use multi_resource_isolation.Alloc.{Platform, msr_l2ca_mask_start}
use multi_resource_isolation.Alloc.L2.{L2ca, out_of_range, set_l2, hw_l2ca_set}

abbrev pub l2_reg : L2ca → ℕ
l2_reg ca = u32 (ca.class_id + msr_l2ca_mask_start)

abbrev pub l2_writes : List L2ca → Writes
l2_writes [] = []
l2_writes (ca ∷ cas) = (l2_reg ca, ca.ways_mask) ∷ l2_writes cas

-- The mask of a class after a table's entries, from the mask before.
abbrev pub last_mask : List L2ca → ℕ → ℕ → ℕ
last_mask [] k old = old
last_mask (ca ∷ cas) k old = last_mask cas k (if ca.class_id == k then ca.ways_mask else old)

-- The masks are 32-bit words.
abbrev pub Words : List L2ca → Type 0
Words cas = All (λ ca. ca.ways_mask < 2 ^ 32) cas

classes_below :
    (count : ℕ) (cas : List L2ca)
    → out_of_range count cas ≡ false
    → All (λ ca. ca.class_id < count) cas
classes_below count [] h = tt
classes_below count (ca ∷ cas) h = (ground arith, classes_below count cas (ground arith))

last-l2_writes :
    (count : ℕ) (cas : List L2ca) (k old : ℕ)
    → count ≤ 64
    → All (λ ca. ca.class_id < count) cas
    → k < 64
    → last (l2_writes cas) (msr_l2ca_mask_start + k) old ≡ last_mask cas k old
last-l2_writes count [] k old few h low = refl
last-l2_writes count (ca ∷ cas) k old few h low =
    last-l2_writes count cas k _ few h.1 low ∙ ap (last_mask cas k) (ground (arith, h.0))

l2-Exact :
    (count : ℕ) (cas : List L2ca)
    → count ≤ 64
    → All (λ ca. ca.class_id < count) cas
    → Words cas
    → All Exact (l2_writes cas)
l2-Exact count [] few h w = tt
l2-Exact count (ca ∷ cas) few h w = (omega (arith, h.0, w.0), l2-Exact count cas few h.1 w.1)

module _ (m : Msr) where
  set_l2-eq : (core : ℕ) (cas : List L2ca) → set_l2 m core cas ≡ write_all m core (l2_writes cas)
  unfolding set_l2 write_all
  set_l2-eq core [] = refl
  set_l2-eq core (ca ∷ cas) =
      ap (λ (rest : Action m.State (Unit {0})). write_msr m core (l2_reg ca) ca.ways_mask >> rest)
        (set_l2-eq core cas)

-- The registers outside those of the L2 masks.
abbrev pub OutsideL2 : ℕ → Type 0
OutsideL2 r = (r < msr_l2ca_mask_start) ⊎ (msr_l2ca_mask_start + 64 ≤ r)

l2_outside :
    (count r : ℕ) (cas : List L2ca)
    → OutsideL2 r
    → count ≤ 64
    → All (λ ca. ca.class_id < count) cas
    → All (λ w. w.0 ≢ r) (l2_writes cas)
l2_outside count r [] o few h = tt
l2_outside count r (ca ∷ cas) o few h = (omega (arith, h.0), l2_outside count r cas o few h.1)

module _ (m : Msr) (p : Platform) (l2id count core : ℕ)
    (classes : l2ca_get_cos_num p.interface p.cap ≡ ok count)
    (found : get_one_by_l2id p.cpu l2id ≡ ok core) where
  -- A class out of range is refused with PARAM before any register is written; with all classes in
  -- range the call comes down to its writes.
  pub hw_l2ca_set-checks :
      (ca : List L2ca) (s : m.State)
      → hw_l2ca_set m p l2id ca s ≡ (
          if out_of_range count ca
          then (err Retval.param, s)
          else write_all m core (l2_writes ca) s)
  unfolding hw_l2ca_set
  hw_l2ca_set-checks ca s = ground (arith, ap (λ f. f s) (set_l2-eq m core ca))

  -- A success of `hw_l2ca_set` means that every class is in range; on every core that shares the
  -- register with the core written through, the register of class `k` holds the mask of the last
  -- entry for `k`, or its old value where there is none; on the other cores, and outside the L2
  -- mask registers, nothing changed.
  pub hw_l2ca_set_lem :
      (g : Registers m) (ca : List L2ca) (s : m.State) (c k r : ℕ)
      → count ≤ 64
      → Words ca
      → k < 64
      → OutsideL2 r
      → (hw_l2ca_set m p l2id ca s).0 ≡ ok tt
      → let s' = (hw_l2ca_set m p l2id ca s).1 in
        let reg = msr_l2ca_mask_start + k in
        All (λ e. e.class_id < count) ca
        × (g.peek s' c reg ≡ (
            if g.domain reg c == g.domain reg core
            then last_mask ca k (g.peek s c reg)
            else g.peek s c reg))
        × (g.peek s' c r ≡ g.peek s c r)
  hw_l2ca_set_lem g ca s c k r few words low out h =
      let (safe, whole) = passed in
      let ranged = classes_below count ca safe in
      let ws = l2_writes ca in
      let exact = l2-Exact count ca few ranged words in
      let t = hw_l2ca_set m p l2id ca s in
      (
        ranged,
        register_after m g core ws s t c (msr_l2ca_mask_start + k) _ whole h exact
            (last-l2_writes count ca k _ few ranged low),
        register_kept m g core ws s t c r whole h exact (l2_outside count r ca out few ranged),
      )
    where
      passed :
          (out_of_range count ca ≡ false)
          × (hw_l2ca_set m p l2id ca s ≡ write_all m core (l2_writes ca) s)
      passed = ground (arith, hw_l2ca_set-checks ca s)
