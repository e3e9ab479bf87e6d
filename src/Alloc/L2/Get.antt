-- ===== src/Alloc/L2/Get.antt =====
-- What `hw_l2ca_get` returns, and that it reads back what `hw_l2ca_set` wrote.
use multi_resource_isolation.Prelude.{
  ℕ, zero, suc, ◌+◌, ◌≤◌, ◌<◌, ◌≡◌, refl, ap, ◌∙◌, false, List, [], ◌∷◌, arith, u32, if◌then◌else◌,
  eq→==, some, get_elem?, inl,
}
use multi_resource_isolation.Types.{ok, err, Retval, pure, ◌>>=◌}
use multi_resource_isolation.Types.Bind.{bind_of_ok}
use multi_resource_isolation.Msr.{Msr, Registers, Accepts, read_msr}
use multi_resource_isolation.Msr.Access.{read_msr_peek}
use multi_resource_isolation.Msr.Writes.{write_all, write_all_total}
use multi_resource_isolation.Cpu.{get_one_by_l2id}
use multi_resource_isolation.Cap.{l2ca_get_cos_num}
use multi_resource_isolation.Alloc.{Platform, msr_l2ca_mask_start}
use multi_resource_isolation.Alloc.L2.{L2ca, out_of_range, get_l2, hw_l2ca_set, hw_l2ca_get}
use multi_resource_isolation.Alloc.L2.Set.{
  l2_writes, last_mask, Words, hw_l2ca_set-checks, hw_l2ca_set_lem,
}

abbrev l2_table : (ℕ → ℕ) → ℕ → ℕ → List L2ca
l2_table value zero i = []
l2_table value (suc n) i =
    record { class_id = i; ways_mask = u32 (value (u32 (msr_l2ca_mask_start + i))) }
    ∷ l2_table value n (i + 1)

same_l2 :
    (value : ℕ → ℕ) (i i' r r' : ℕ)
    → i ≡ i'
    → r ≡ r'
    → some (let e : L2ca = record { class_id = i; ways_mask = u32 (value r) } in e)
      ≡ some (record { class_id = i'; ways_mask = u32 (value r') })
same_l2 value i i' r r' p q = cc

l2_table-entry :
    (value : ℕ → ℕ) (n i j : ℕ)
    → j < n
    → i + n ≤ 64
    → get_elem? (l2_table value n i) j
      ≡ some (record { class_id = i + j; ways_mask = u32 (value (msr_l2ca_mask_start + (i + j))) })
l2_table-entry value zero i j low fits = absurd (omega arith)
l2_table-entry value (suc n) i zero low fits =
    same_l2 value i (i + 0) (u32 (msr_l2ca_mask_start + i)) (msr_l2ca_mask_start + (i + 0))
      (omega arith) (omega arith)
l2_table-entry value (suc n) i (suc j) low fits =
    l2_table-entry value n (i + 1) j (omega arith) (omega arith)
    ∙ same_l2 value (i + 1 + j) (i + suc j) (msr_l2ca_mask_start + (i + 1 + j))
        (msr_l2ca_mask_start + (i + suc j)) (omega arith) (omega arith)

module _ (m : Msr) (a : Accepts m) (g : Registers m) where
  get_l2_lem :
      (core n i : ℕ) (s : m.State) (value : ℕ → ℕ)
      → ((r : ℕ) → g.peek s core r ≡ value r)
      → (get_l2 m core n i s).0 ≡ ok (l2_table value n i)
  unfolding get_l2
  get_l2_lem core zero i s value same = refl
  get_l2_lem core (suc n) i s value same =
      let reg = u32 (msr_l2ca_mask_start + i) in
      let s' = (read_msr m core reg s).1 in
      let entry = λ (v : ℕ) (rest : List L2ca).
        pure {S = m.State} {A = List L2ca} (record { class_id = i; ways_mask = u32 v } ∷ rest) in
      let others = get_l2 m core n (i + 1) in
      let later =
        get_l2_lem core n (i + 1) s' value (λ r. g.read_keeps core reg s core r ∙ same r) in
      ap (λ t. t.0)
        (bind_of_ok (read_msr m core reg) (λ v. others >>= entry v) s
            (read_msr_peek m a g core reg s)
          ∙ bind_of_ok others (entry (g.peek s core reg)) s' later)
      ∙ ap (λ v. ok (record { class_id = i; ways_mask = u32 v } ∷ l2_table value n (i + 1)))
          (same reg)

module _ (m : Msr) (p : Platform) (l2id count core : ℕ)
    (classes : l2ca_get_cos_num p.interface p.cap ≡ ok count)
    (found : get_one_by_l2id p.cpu l2id ≡ ok core) where
  hw_l2ca_get-guards :
      (max_num_ca : ℕ) (s : m.State)
      → count ≤ max_num_ca
      → hw_l2ca_get m p l2id max_num_ca s ≡ get_l2 m core count 0 s
  unfolding hw_l2ca_get
  hw_l2ca_get-guards max_num_ca s room = ground arith

  -- Round trip: where every class is in range and the driver accepts every access, `hw_l2ca_set`
  -- succeeds, and `hw_l2ca_get` returns afterwards, for each class, the mask of the last entry for
  -- the class, or the low 32 bits of what the register held before.
  pub l2ca_get-set :
      (a : Accepts m) (g : Registers m) (ca : List L2ca) (s : m.State) (k max_num_ca : ℕ)
      → count ≤ 64
      → Words ca
      → k < count
      → count ≤ max_num_ca
      → out_of_range count ca ≡ false
      → let (r, s') = hw_l2ca_set m p l2id ca s in
        (r ≡ ok tt)
        × ((out : List L2ca) × ((hw_l2ca_get m p l2id max_num_ca s').0 ≡ ok out)
            × (get_elem? out k
                ≡ some (record {
                  class_id = k;
                  ways_mask = u32 (last_mask ca k (g.peek s core (msr_l2ca_mask_start + k)));
                })))
  l2ca_get-set a g ca s k max_num_ca few words low room safe =
      let done =
        ap (λ t. t.0)
          (hw_l2ca_set-checks m p l2id count core classes found ca s
            ∙ ap (λ b. if b then (err Retval.param, s) else write_all m core (l2_writes ca) s) safe)
        ∙ write_all_total m a core (l2_writes ca) s in
      let s' = (hw_l2ca_set m p l2id ca s).1 in
      let (_, now, _) =
        hw_l2ca_set_lem m p l2id count core classes found g ca s core k 0 few words (omega arith)
          (inl (omega arith)) done in
      let reg = msr_l2ca_mask_start + k in
      let kept : g.peek s' core reg ≡ last_mask ca k (g.peek s core reg) =
        now
        ∙ ap (λ b. if b then last_mask ca k (g.peek s core reg) else g.peek s core reg)
            (eq→== (g.domain reg core) (g.domain reg core) refl) in
      (
        done,
        (
          l2_table (g.peek s' core) count 0,
          ap (λ t. t.0) (hw_l2ca_get-guards max_num_ca s' room)
              ∙ get_l2_lem m a g core count 0 s' (g.peek s' core) (λ r. refl),
          l2_table-entry (g.peek s' core) count 0 k low (omega arith)
              ∙ same_l2 (g.peek s' core) (0 + k) k (msr_l2ca_mask_start + (0 + k)) reg (omega arith)
                  (omega arith)
              ∙ ap (λ v. some (let e : L2ca = record { class_id = k; ways_mask = u32 v } in e))
                  kept,
        ),
      )
