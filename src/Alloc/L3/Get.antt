-- ===== src/Alloc/L3/Get.antt =====
-- What the loops of `hw_l3ca_get` read, as tables of the register values.
use multi_resource_isolation.Prelude.{
  ℕ, zero, suc, ◌+◌, ◌*◌, ◌^◌, ◌≤◌, ◌<◌, ◌≡◌, refl, ap, ap₂, ◌∙◌, true, false, List, [], ◌∷◌, arith,
  u32, length, some, get_elem?,
}
use multi_resource_isolation.Types.{ok, ◌>>=◌, pure}
use multi_resource_isolation.Types.Bind.{bind_of_ok}
use multi_resource_isolation.Msr.{Msr, Registers, Accepts, read_msr}
use multi_resource_isolation.Msr.Access.{read_msr_peek}
use multi_resource_isolation.Alloc.L3.{L3ca, get_ways, get_cdp}

-- The entries that the loops read: from class `i` and register `reg` on, `n` of them.
abbrev pub ways_table : (ℕ → ℕ) → ℕ → ℕ → ℕ → List L3ca → List L3ca
ways_table value zero i reg table = []
ways_table value (suc n) i reg [] = []
ways_table value (suc n) i reg (ca ∷ table) =
    record ca { class_id = i; cdp = false; data_mask = value reg }
    ∷ ways_table value n (i + 1) (u32 (reg + 1)) table

abbrev pub cdp_table : (ℕ → ℕ) → ℕ → ℕ → ℕ → List L3ca → List L3ca
cdp_table value zero i reg table = []
cdp_table value (suc n) i reg [] = []
cdp_table value (suc n) i reg (ca ∷ table) =
    record { class_id = i; cdp = true; data_mask = value reg; code_mask = value (u32 (reg + 1)) }
    ∷ cdp_table value n (i + 1) (u32 (reg + 2)) table

module _ (m : Msr) (a : Accepts m) (g : Registers m) where
  pub get_ways_lem :
      (core n i reg : ℕ) (table : List L3ca) (s : m.State) (value : ℕ → ℕ)
      → ((r : ℕ) → g.peek s core r ≡ value r)
      → (get_ways m core n i reg table s).0 ≡ ok (ways_table value n i reg table)
  unfolding get_ways
  get_ways_lem core zero i reg table s value same = refl
  get_ways_lem core (suc n) i reg [] s value same = refl
  get_ways_lem core (suc n) i reg (ca ∷ table) s value same =
      let s' = (read_msr m core reg s).1 in
      let entry = λ (v : ℕ) (rest : List L3ca).
        pure {S = m.State} (record ca { class_id = i; cdp = false; data_mask = v } ∷ rest) in
      let others = get_ways m core n (i + 1) (u32 (reg + 1)) table in
      let later =
        get_ways_lem core n (i + 1) (u32 (reg + 1)) table s' value
          (λ r. g.read_keeps core reg s core r ∙ same r) in
      ap (λ t. t.0)
        (bind_of_ok (read_msr m core reg) (λ v. others >>= entry v) s
            (read_msr_peek m a g core reg s)
          ∙ bind_of_ok others (entry (g.peek s core reg)) s' later)
      ∙ ap
          (λ v. ok (
            record ca { class_id = i; cdp = false; data_mask = v }
            ∷ ways_table value n (i + 1) (u32 (reg + 1)) table))
          (same reg)

  pub get_cdp_lem :
      (core n i reg : ℕ) (table : List L3ca) (s : m.State) (value : ℕ → ℕ)
      → ((r : ℕ) → g.peek s core r ≡ value r)
      → (get_cdp m core n i reg table s).0 ≡ ok (cdp_table value n i reg table)
  unfolding get_cdp
  get_cdp_lem core zero i reg table s value same = refl
  get_cdp_lem core (suc n) i reg [] s value same = refl
  get_cdp_lem core (suc n) i reg (ca ∷ table) s value same =
      let s' = (read_msr m core reg s).1 in
      let reg' = u32 (reg + 1) in
      let s'' = (read_msr m core reg' s').1 in
      let entry = λ (d c : ℕ) (rest : List L3ca).
        pure {S = m.State}
          (record { class_id = i; cdp = true; data_mask = d; code_mask = c } ∷ rest) in
      let others = get_cdp m core n (i + 1) (u32 (reg + 2)) table in
      let same' = λ (r : ℕ). g.read_keeps core reg s core r ∙ same r in
      let later =
        get_cdp_lem core n (i + 1) (u32 (reg + 2)) table s'' value
          (λ r. g.read_keeps core reg' s' core r ∙ same' r) in
      ap (λ t. t.0)
        (bind_of_ok (read_msr m core reg) (λ d. read_msr m core reg' >>= λ c. others >>= entry d c)
            s (read_msr_peek m a g core reg s)
          ∙ bind_of_ok (read_msr m core reg') (λ c. others >>= entry (g.peek s core reg) c) s'
              (read_msr_peek m a g core reg' s')
          ∙ bind_of_ok others (entry (g.peek s core reg) (g.peek s' core reg')) s'' later)
      ∙ ap₂
          (λ d c. ok (
            record { class_id = i; cdp = true; data_mask = d; code_mask = c }
            ∷ cdp_table value n (i + 1) (u32 (reg + 2)) table))
          (same reg) (same' reg')

-- Entry `j` of a table describes class `j` with one mask.
abbrev pub HasWays : List L3ca → ℕ → ℕ → Type 0
HasWays out j mask =
    (e : L3ca) × (get_elem? out j ≡ some e)
    × (e.class_id ≡ j)
    × (e.cdp ≡ false)
    × (e.data_mask ≡ mask)

-- Entry `j` of a table describes class `j` with two masks.
abbrev pub HasMasks : List L3ca → ℕ → ℕ → ℕ → Type 0
HasMasks out j data_mask code_mask =
    get_elem? out j
    ≡ some (record { class_id = j; cdp = true; data_mask = data_mask; code_mask = code_mask })

pub length-ways_table :
    (value : ℕ → ℕ) (n i reg : ℕ) (table : List L3ca)
    → n ≤ length table
    → length (ways_table value n i reg table) ≡ n
length-ways_table value zero i reg table h = refl
length-ways_table value (suc n) i reg [] h = absurd (omega arith)
length-ways_table value (suc n) i reg (ca ∷ table) h =
    ap suc (length-ways_table value n (i + 1) (u32 (reg + 1)) table (omega arith))

pub length-cdp_table :
    (value : ℕ → ℕ) (n i reg : ℕ) (table : List L3ca)
    → n ≤ length table
    → length (cdp_table value n i reg table) ≡ n
length-cdp_table value zero i reg table h = refl
length-cdp_table value (suc n) i reg [] h = absurd (omega arith)
length-cdp_table value (suc n) i reg (ca ∷ table) h =
    ap suc (length-cdp_table value n (i + 1) (u32 (reg + 2)) table (omega arith))

pub ways_table-entry :
    (value : ℕ → ℕ) (n i reg : ℕ) (table : List L3ca) (j : ℕ)
    → n ≤ length table
    → j < n
    → reg + n < 2 ^ 32
    → (e : L3ca) × (get_elem? (ways_table value n i reg table) j ≡ some e)
      × (e.class_id ≡ i + j)
      × (e.cdp ≡ false)
      × (e.data_mask ≡ value (reg + j))
ways_table-entry value zero i reg table j h low fits = absurd (omega arith)
ways_table-entry value (suc n) i reg [] j h low fits = absurd (omega arith)
ways_table-entry value (suc n) i reg (ca ∷ table) zero h low fits = (
  record ca { class_id = i; cdp = false; data_mask = value reg },
  refl,
  omega arith,
  refl,
  ap value (omega arith),
)
ways_table-entry value (suc n) i reg (ca ∷ table) (suc j) h low fits =
    let (e, at, class, flag, mask) =
      ways_table-entry value n (i + 1) (u32 (reg + 1)) table j (omega arith) (omega arith)
        (omega arith) in
    (e, at, omega (arith, class), flag, mask ∙ ap value (omega arith))

abbrev pub cdp_entry : ℕ → ℕ → ℕ → L3ca
cdp_entry class data_mask code_mask = record {
  class_id = class;
  cdp = true;
  data_mask = data_mask;
  code_mask = code_mask;
}

pub same_entry :
    (value : ℕ → ℕ) (i i' d d' c c' : ℕ)
    → i ≡ i'
    → d ≡ d'
    → c ≡ c'
    → some (cdp_entry i (value d) (value c)) ≡ some (cdp_entry i' (value d') (value c'))
same_entry value i i' d d' c c' p q r = cc

pub cdp_table-entry :
    (value : ℕ → ℕ) (n i reg : ℕ) (table : List L3ca) (j : ℕ)
    → n ≤ length table
    → j < n
    → reg + 2 * n < 2 ^ 32
    → get_elem? (cdp_table value n i reg table) j
      ≡ some (record {
        class_id = i + j;
        cdp = true;
        data_mask = value (reg + 2 * j);
        code_mask = value (reg + 2 * j + 1);
      })
cdp_table-entry value zero i reg table j h low fits = absurd (omega arith)
cdp_table-entry value (suc n) i reg [] j h low fits = absurd (omega arith)
cdp_table-entry value (suc n) i reg (ca ∷ table) zero h low fits =
    same_entry value i (i + 0) reg (reg + 2 * 0) (u32 (reg + 1)) (reg + 2 * 0 + 1) (omega arith)
      (omega arith) (omega arith)
cdp_table-entry value (suc n) i reg (ca ∷ table) (suc j) h low fits =
    let reg' = u32 (reg + 2) in
    cdp_table-entry value n (i + 1) reg' table j (omega arith) (omega arith) (omega arith)
    ∙ same_entry value (i + 1 + j) (i + suc j) (reg' + 2 * j) (reg + 2 * suc j) (reg' + 2 * j + 1)
        (reg + 2 * suc j + 1) (omega arith) (omega arith) (omega arith)
