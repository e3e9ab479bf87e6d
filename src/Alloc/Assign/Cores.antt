-- ===== src/Alloc/Assign/Cores.antt =====
-- `get_unused_cos`, `hw_alloc_assign` and `hw_alloc_release` as their callers see them.
use native.Mathlib.Decide.{dec_lt}
use multi_resource_isolation.Prelude.{
  ℕ, ◌^◌, ◌≤◌, ◌<◌, ◌≡◌, refl, sym, ap, ◌∙◌, Bool, true, false, ◌||◌, arith, if◌then◌else◌, List,
  [], ◌∷◌, inl, inr, ◌⊎◌,
}
use multi_resource_isolation.Types.{ok, lift, ◌>>=◌}
use multi_resource_isolation.Types.Bind.{ok_of_bind}
use multi_resource_isolation.Msr.{Msr, Registers, msr_assoc}
use multi_resource_isolation.Cpu.{listed}
use multi_resource_isolation.Alloc.{Platform}
use multi_resource_isolation.Alloc.Assoc.{cos_assoc_set}
use multi_resource_isolation.Alloc.Assoc.Field.{class_in, rmid_half, PerCore, cos_assoc_set_lem}
use multi_resource_isolation.Alloc.Assign.{
  cleared_classes, l2_req, find_unused, used_on, get_hi_cos_id, get_unused_cos, assign_all,
}
use multi_resource_isolation.Alloc.Assign.Unused.{
  in_use, used_on_lem, find_unused_lem, find_unused_top,
}

-- The array is clear.
cleared_classes_lem : (p : Platform) (k : ℕ) → k < 16 → cleared_classes p k ≡ false
cleared_classes_lem p k h = ground arith

module _ (m : Msr) (p : Platform) (g : Registers m) (technology hi : ℕ)
    (top : get_hi_cos_id p technology ≡ ok hi) where
  search_from :
      (id : ℕ) (s : m.State)
      → get_unused_cos m p id technology s
        ≡ (used_on m (l2_req technology) id hi p.cpu.cores (cleared_classes p) >>= λ used.
              lift (find_unused used hi))
            s
  unfolding get_unused_cos
  search_from id s =
      ap
        (λ r.
          (lift r >>= λ h.
          used_on m (l2_req technology) id h p.cpu.cores (cleared_classes p) >>= λ used.
          lift (find_unused used h))
            s)
        top

  found_class :
      (id : ℕ) (s : m.State) {class_id : ℕ}
      → (get_unused_cos m p id technology s).0 ≡ ok class_id
      → (used : ℕ → Bool) × ((used_on m
            (l2_req technology)
            id
            hi
            p.cpu.cores
            (cleared_classes p)
            s).0
          ≡ ok used)
        × (find_unused used hi ≡ ok class_id)
        × ((get_unused_cos m p id technology s).1
            ≡ (used_on m (l2_req technology) id hi p.cpu.cores (cleared_classes p) s).1)
  found_class id s e =
      let search = used_on m (l2_req technology) id hi p.cpu.cores (cleared_classes p) in
      let (used, done, on) =
        ok_of_bind search (λ u. lift (find_unused u hi)) s
          (ap (λ t. t.0) (sym (search_from id s)) ∙ e) in
      let whole = search_from id s ∙ on in
      (used, done, ap (λ t. t.0) (sym whole) ∙ e, ap (λ t. t.1) whole)

  -- A class that `get_unused_cos` returns is between 1 and the highest class that the technologies
  -- share, where that is within the array of the code, no core of the socket (of the L2 cluster, where L2 is asked for) has it, every class
  -- above it up to that limit is in use there, and no register has changed.
  pub get_unused_cos_lem :
      (id k : ℕ) (s : m.State) (c r : ℕ) {class_id : ℕ}
      → (get_unused_cos m p id technology s).0 ≡ ok class_id
      → hi < 16
      → k ≤ hi
      → let taken = in_use g s (l2_req technology) id p.cpu.cores in
        (1 ≤ class_id)
        × (class_id ≤ hi)
        × (taken class_id ≡ false)
        × ((k ≤ class_id) ⊎ (taken k ≡ true))
        × (g.peek (get_unused_cos m p id technology s).1 c r ≡ g.peek s c r)
  get_unused_cos_lem id k s c r {class_id} e short h =
      let (used, done, found, state) = found_class id s e in
      let (marks, kept) =
        used_on_lem m g (l2_req technology) id hi p.cpu.cores (cleared_classes p) s {out = used}
          short done in
      let (low, high, free) = find_unused_lem used hi {c = class_id} found in
      let taken = in_use g s (l2_req technology) id p.cpu.cores in
      let empty =
        λ (j : ℕ) (in_array : j < 16). ap (λ b. b || taken j) (cleared_classes_lem p j in_array) in
      (
        low,
        high,
        sym (empty class_id (omega arith)) ∙ sym (marks class_id high) ∙ free,
        elim (dec_lt class_id k) [
          | yes above ↦ inr (
              sym (empty k (omega arith))
              ∙ sym (marks k h)
              ∙ find_unused_top used hi k {c = class_id} found above h)
          | no below ↦ inl (omega arith)
        ],
        ap (λ t. g.peek t c r) state ∙ kept c r,
      )

module _ (m : Msr) (g : Registers m) (own : PerCore g) where
  -- The cores of the array get the class, the others keep theirs, and every RMID stays.
  pub assign_all_lem :
      (core_array : List ℕ) (class_id : ℕ) (s : m.State) (c : ℕ)
      → class_id < 2 ^ 32
      → (assign_all m core_array class_id s).0 ≡ ok tt
      → let s' = (assign_all m core_array class_id s).1 in
        (class_in g s' c ≡ (if listed c core_array then class_id else class_in g s c))
        × (rmid_half (g.peek s' c msr_assoc) ≡ rmid_half (g.peek s c msr_assoc))
  unfolding assign_all listed
  assign_all_lem [] class_id s c word e = (refl, refl)
  assign_all_lem (lcore ∷ core_array) class_id s c word e =
      let (_, done, on) =
        ok_of_bind (cos_assoc_set m lcore class_id) (λ _. assign_all m core_array class_id) s e in
      let s' = (cos_assoc_set m lcore class_id s).1 in
      let (class, rmid) = cos_assoc_set_lem m g lcore class_id s c own word done in
      let (later, rmids) =
        assign_all_lem core_array class_id s' c word (ap (λ t. t.0) (sym on) ∙ e) in
      (
        ap (λ t. class_in g t.1 c) on ∙ later ∙ ground (arith, class),
        ap (λ t. rmid_half (g.peek t.1 c msr_assoc)) on ∙ rmids ∙ rmid,
      )
