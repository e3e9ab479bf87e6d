-- ===== src/Alloc/Assign/Entity.antt =====
-- `hw_alloc_assign`: one entity, an unused class, and the cores associated with it; and
-- `hw_alloc_release`.
use multi_resource_isolation.Prelude.{
  ℕ, ◌+◌, ◌-◌, ◌^◌, ◌≤◌, ◌<◌, ◌≡◌, refl, sym, ap, subst, ◌∙◌, Bool, false, arith, if◌then◌else◌,
  List, [], ◌∷◌, All, inl, inr, Option, none, some, Option-cases, u32, ◌⊎◌,
}
use multi_resource_isolation.Types.{Result, ok, err, Action, lift, ◌>>=◌, ◌>>◌, pure}
use multi_resource_isolation.Types.Bind.{ok_of_bind, ok_same}
use multi_resource_isolation.Msr.{Msr, Registers, msr_assoc}
use multi_resource_isolation.Cpu.{Coreinfo, get_core_info, listed}
use multi_resource_isolation.Alloc.{Platform}
use multi_resource_isolation.Alloc.Assoc.{class_of}
use multi_resource_isolation.Alloc.Assoc.Field.{class_in, rmid_half, PerCore}
use multi_resource_isolation.Alloc.Assign.{
  l2_req, entity_of, get_hi_cos_id, get_unused_cos, common_entity, assign_all, and_then,
  hw_alloc_assign,
}
use multi_resource_isolation.Alloc.Assign.Unused.{in_use}
use multi_resource_isolation.Alloc.Assign.Cores.{get_unused_cos_lem, assign_all_lem}

word_of :
    (x : Result ℕ) {hi : ℕ} → and_then x (λ n. ok (u32 (n + 2 ^ 32 - 1))) ≡ ok hi → hi < 2 ^ 32
word_of (ok n) e = ground arith
word_of (err r) e = cc

-- The highest class is an `unsigned`.
hi_word :
    (p : Platform) (technology : ℕ) {hi : ℕ} → get_hi_cos_id p technology ≡ ok hi → hi < 2 ^ 32
unfolding get_hi_cos_id
hi_word p technology e = word_of _ e

-- The core is known, and belongs to the entity.
abbrev pub OnEntity : Platform → Bool → ℕ → ℕ → Type 0
OnEntity p l2 id lcore =
    (c : Coreinfo) × (get_core_info p.cpu lcore ≡ some c) × (entity_of l2 c ≡ id)

module _ (p : Platform) (l2 : Bool) where
  -- One round of the first loop that does not fail.
  round :
      (lcore : ℕ) (rest : List ℕ) (found : Option ℕ) {f : Option ℕ}
      → common_entity p l2 (lcore ∷ rest) found ≡ ok f
      → (c : Coreinfo) × (get_core_info p.cpu lcore ≡ some c)
        × (common_entity p l2 rest (some (entity_of l2 c)) ≡ ok f)
        × ((found ≡ none) ⊎ (found ≡ some (entity_of l2 c)))
  unfolding common_entity
  round lcore rest found e = elim (Option-cases (get_core_info p.cpu lcore)) [
    | inl unknown ↦ absurd (ground arith)
    | inr (c, known) ↦ (c, known, ground arith, ground arith)
  ]

  entity_kept :
      (cores : List ℕ) (id : ℕ) {f : Option ℕ}
      → common_entity p l2 cores (some id) ≡ ok f
      → (f ≡ some id) × All (OnEntity p l2 id) cores
  unfolding common_entity
  entity_kept [] id e = (sym (ok_same e), tt)
  entity_kept (lcore ∷ cores) id {f} e =
      let (c, known, later, same) = round lcore cores (some id) {f = f} e in
      let at : id ≡ entity_of l2 c = ground arith in
      let (end, all) = entity_kept cores (entity_of l2 c) {f = f} later in
      (
        end ∙ ap some (sym at),
        ((c, known, sym at), subst (λ i. All (OnEntity p l2 i) cores) (sym at) all),
      )

  -- The loop accepts a non-empty array only if its cores are known and share their entity.
  pub common_entity_lem :
      (lcore : ℕ) (cores : List ℕ) {f : Option ℕ}
      → common_entity p l2 (lcore ∷ cores) none ≡ ok f
      → (id : ℕ) × (f ≡ some id) × All (OnEntity p l2 id) (lcore ∷ cores)
  common_entity_lem lcore cores {f} e =
      let (c, known, later, _) = round lcore cores none {f = f} e in
      let (end, all) = entity_kept cores (entity_of l2 c) {f = f} later in
      (entity_of l2 c, end, ((c, known, refl), all))

module _ (m : Msr) (p : Platform) (g : Registers m) (own : PerCore g) (technology hi : ℕ)
    (top : get_hi_cos_id p technology ≡ ok hi) where
  -- What follows the choice of the entity.
  abbrev choose : List ℕ → ℕ → Action m.State ℕ
  choose cores id =
      get_unused_cos m p id technology >>= λ class_id. assign_all m cores class_id >> pure class_id

  chosen :
      (cores : List ℕ) (id : ℕ) (s : m.State) {class_id : ℕ}
      → (choose cores id s).0 ≡ ok class_id
      → let s' = (get_unused_cos m p id technology s).1 in
        ((get_unused_cos m p id technology s).0 ≡ ok class_id)
        × ((assign_all m cores class_id s').0 ≡ ok tt)
        × ((choose cores id s).1 ≡ (assign_all m cores class_id s').1)
  chosen cores id s {class_id} e =
      let (k, got, on) =
        ok_of_bind (get_unused_cos m p id technology) (λ k. assign_all m cores k >> pure k) s e in
      let s' = (get_unused_cos m p id technology s).1 in
      let (_, done, next) =
        ok_of_bind (assign_all m cores k) (λ _. pure k) s' (ap (λ t. t.0) (sym on) ∙ e) in
      let whole = on ∙ next in
      let same : k ≡ class_id = ok_same (ap (λ t. t.0) (sym whole) ∙ e) in
      (
        got ∙ ap ok same,
        subst (λ k'. (assign_all m cores k' s').0 ≡ ok tt) same done,
        ap (λ t. t.1) whole ∙ ap (λ k'. (assign_all m cores k' s').1) same,
      )

  abbrev from_entity : List ℕ → Option ℕ → Action m.State ℕ
  from_entity cores found = choose cores (elim found [ some id ↦ id | none ↦ 0 ])

  entity_first :
      (lcore : ℕ) (cores : List ℕ) (s : m.State) {class_id : ℕ}
      → (hw_alloc_assign m p technology (lcore ∷ cores) s).0 ≡ ok class_id
      → (id : ℕ) × All (OnEntity p (l2_req technology) id) (lcore ∷ cores)
        × (hw_alloc_assign m p technology (lcore ∷ cores) s ≡ choose (lcore ∷ cores) id s)
  unfolding hw_alloc_assign
  entity_first lcore cores s e =
      let start = common_entity p (l2_req technology) (lcore ∷ cores) none in
      let (f, common, on) = ok_of_bind (lift start) (from_entity (lcore ∷ cores)) s e in
      let (id, same, all) = common_entity_lem p (l2_req technology) lcore cores {f = f} common in
      (id, all, on ∙ ap (λ f'. from_entity (lcore ∷ cores) f' s) same)

  -- Where the highest class that the technologies share is below 16, the length of the array that the
  -- code marks classes in, a success of `hw_alloc_assign` on a non-empty array means: all its cores are
  -- known and belong to one socket, or to one L2 cluster where L2 is asked for; the class is between 1
  -- and the highest one that the technologies share, and no core of that entity had it; afterwards the
  -- cores of the array have it, every other core has the class it had, and every core its RMID.
  pub hw_alloc_assign_lem :
      (lcore : ℕ) (cores : List ℕ) (s : m.State) (c : ℕ) {class_id : ℕ}
      → hi < 16
      → (hw_alloc_assign m p technology (lcore ∷ cores) s).0 ≡ ok class_id
      → let l2 = l2_req technology in
        let s' = (hw_alloc_assign m p technology (lcore ∷ cores) s).1 in
        (id : ℕ) × All (OnEntity p l2 id) (lcore ∷ cores)
        × (1 ≤ class_id)
        × (class_id ≤ hi)
        × (in_use g s l2 id p.cpu.cores class_id ≡ false)
        × (class_in g s' c ≡ (if listed c (lcore ∷ cores) then class_id else class_in g s c))
        × (rmid_half (g.peek s' c msr_assoc) ≡ rmid_half (g.peek s c msr_assoc))
  hw_alloc_assign_lem lcore cores s c {class_id} short e =
      let (id, all, on) = entity_first lcore cores s {class_id = class_id} e in
      let array : List ℕ = lcore ∷ cores in
      let (got, done, state) =
        chosen array id s {class_id = class_id} (ap (λ t. t.0) (sym on) ∙ e) in
      let s' = (get_unused_cos m p id technology s).1 in
      let (low, high, free, _, kept) =
        get_unused_cos_lem m p g technology hi top id 0 s c msr_assoc {class_id = class_id} got
          short (omega arith) in
      let (class, rmid) =
        assign_all_lem m g own array class_id s' c
          (omega (arith, hi_word p technology {hi = hi} top)) done in
      let end = ap (λ t. t.1) on ∙ state in
      (
        id,
        all,
        low,
        high,
        free,
        ap (λ t. class_in g t c) end
            ∙ class
            ∙ ap (λ v. if listed c array then class_id else class_of v) kept,
        ap (λ t. rmid_half (g.peek t c msr_assoc)) end ∙ rmid ∙ ap rmid_half kept,
      )
