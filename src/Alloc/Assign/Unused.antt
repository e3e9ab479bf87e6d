-- ===== src/Alloc/Assign/Unused.antt =====
-- `get_unused_cos` finds the highest class that no core of the entity uses.
use native.Mathlib.Decide.{ℕ_discrete}
use multi_resource_isolation.Prelude.{
  ℕ, zero, suc, ◌≤◌, ◌<◌, ◌≡◌, refl, sym, ap, ap₂, ◌∙◌, Bool, true, false, ◌&&◌, ◌||◌, ltb, arith,
  ◌==◌, if◌then◌else◌, List, [], ◌∷◌, Bool-cases, inl, inr,
}
use multi_resource_isolation.Types.{ok, Action, ◌>>=◌}
use multi_resource_isolation.Types.Bind.{ok_of_bind, ok_same}
use multi_resource_isolation.Msr.{Msr, Registers, msr_assoc, read_msr}
use multi_resource_isolation.Msr.Access.{read_msr_value}
use multi_resource_isolation.Cpu.{Coreinfo}
use multi_resource_isolation.Alloc.Assoc.{class_of, cos_assoc_get}
use multi_resource_isolation.Alloc.Assoc.Field.{class_in}
use multi_resource_isolation.Alloc.Assign.{entity_of, mark, find_unused, used_on}

-- The search from the top down.
pub find_unused_lem :
    (used : ℕ → Bool) (hi : ℕ) {c : ℕ}
    → find_unused used hi ≡ ok c
    → (1 ≤ c) × (c ≤ hi) × (used c ≡ false)
unfolding find_unused
find_unused_lem used zero e = cc
find_unused_lem used (suc n) {c} e = ground (arith, find_unused_lem used n {c = c})

pub find_unused_top :
    (used : ℕ → Bool) (hi k : ℕ) {c : ℕ}
    → find_unused used hi ≡ ok c
    → c < k
    → k ≤ hi
    → used k ≡ true
unfolding find_unused
find_unused_top used zero k e low h = cc
find_unused_top used (suc n) k {c} e low h = elim (ℕ_discrete k (suc n)) [
  | yes top ↦ rw top (ground arith)
  | no below ↦ find_unused_top used n k {c = c} (ground arith) low (omega arith)
]

-- Does a core of the entity have class `k`?
abbrev pub in_use : {m : Msr} → Registers m → m.State → Bool → ℕ → List Coreinfo → ℕ → Bool
in_use g s l2 id [] k = false
in_use g s l2 id (c ∷ cs) k =
    (entity_of l2 c == id && class_in g s c.lcore == k) || in_use g s l2 id cs k

in_use_same :
    {m : Msr} (g : Registers m) (s t : m.State) (l2 : Bool) (id : ℕ) (cs : List Coreinfo) (k : ℕ)
    → ((c r : ℕ) → g.peek s c r ≡ g.peek t c r)
    → in_use g s l2 id cs k ≡ in_use g t l2 id cs k
in_use_same g s t l2 id [] k h = refl
in_use_same g s t l2 id (c ∷ cs) k h =
    ap₂ (λ v rest. (entity_of l2 c == id && class_of v == k) || rest) (h c.lcore msr_assoc)
      (in_use_same g s t l2 id cs k h)

module _ (m : Msr) (g : Registers m) where
  get_keeps :
      (lcore : ℕ) (s : m.State) {v : ℕ}
      → (cos_assoc_get m lcore s).0 ≡ ok v
      → (v ≡ class_in g s lcore)
        × ((c r : ℕ) → g.peek (cos_assoc_get m lcore s).1 c r ≡ g.peek s c r)
  unfolding cos_assoc_get
  get_keeps lcore s h =
      let (val, read, on) =
        ok_of_bind (read_msr m lcore msr_assoc) (λ x t. (ok (class_of x), t)) s h in
      (
        sym (ok_same (ap (λ t. t.0) (sym on) ∙ h))
            ∙ ap class_of (read_msr_value m g lcore msr_assoc val s read),
        λ c r. ap (λ t. g.peek t.1 c r) on ∙ g.read_keeps lcore msr_assoc s c r,
      )

  -- Marking the class of one more core.
  mark_step :
      (l2 : Bool) (id hi k cos : ℕ) (used : ℕ → Bool) (s : m.State) (c : Coreinfo) (rest : Bool)
      → (entity_of l2 c == id) ≡ true
      → cos ≡ class_in g s c.lcore
      → k ≤ hi
      → hi < 16
      → ((if ltb hi cos then used else mark cos used) k || rest)
        ≡ (used k || ((entity_of l2 c == id && class_in g s c.lcore == k) || rest))
  mark_step l2 id hi k cos used s c rest here e h short = ground arith

  module _ (l2 : Bool) (id hi : ℕ) (c : Coreinfo) (cs : List Coreinfo) (used : ℕ → Bool)
      (s : m.State) where
    -- A core of another entity is passed over.
    skip :
        (entity_of l2 c == id) ≡ false
        → used_on m l2 id hi (c ∷ cs) used s ≡ used_on m l2 id hi cs used s
    unfolding used_on
    skip away =
        ap
          (λ b.
            (let next : Action m.State (ℕ → Bool) = elim b [
              | false ↦ used_on m l2 id hi cs used
              | true ↦ cos_assoc_get m c.lcore >>= λ cos.
                  used_on m l2 id hi cs (if ltb hi cos then used else mark cos used)
            ] in
                next)
              s)
          away

    note : Action m.State (ℕ → Bool)
    note = cos_assoc_get m c.lcore >>= λ cos.
        used_on m l2 id hi cs (if ltb hi cos then used else mark cos used)

    count_in : (entity_of l2 c == id) ≡ true → used_on m l2 id hi (c ∷ cs) used s ≡ note s
    unfolding used_on note
    count_in here =
        ap
          (λ b.
            (let next : Action m.State (ℕ → Bool) = elim b [
              | false ↦ used_on m l2 id hi cs used
              | true ↦ cos_assoc_get m c.lcore >>= λ cos.
                  used_on m l2 id hi cs (if ltb hi cos then used else mark cos used)
            ] in
                next)
              s)
          here

  or_false : (b : Bool) → b ≡ (b || false)
  or_false true = refl
  or_false false = refl

  -- The classes marked are those up to the limit that a core of the entity has, where the limit lies
  -- within the array, and reading them
  -- changes no register.
  pub used_on_lem :
      (l2 : Bool) (id hi : ℕ) (cs : List Coreinfo) (used : ℕ → Bool) (s : m.State) {out : ℕ → Bool}
      → hi < 16
      → (used_on m l2 id hi cs used s).0 ≡ ok out
      → ((k : ℕ) → k ≤ hi → out k ≡ (used k || in_use g s l2 id cs k))
        × ((c r : ℕ) → g.peek (used_on m l2 id hi cs used s).1 c r ≡ g.peek s c r)
  unfolding used_on note
  used_on_lem l2 id hi [] used s short e =
      (λ k h. ap (λ f. f k) (sym (ok_same e)) ∙ or_false (used k), λ c r. refl)
  used_on_lem l2 id hi (c ∷ cs) used s {out} short e = elim (Bool-cases (entity_of l2 c == id)) [
    | inl here ↦
        let marked = λ (cos : ℕ). if ltb hi cos then used else mark cos used in
        let (cos, got, on) =
          ok_of_bind (cos_assoc_get m c.lcore) (λ v. used_on m l2 id hi cs (marked v)) s
            (ap (λ t. t.0) (sym (count_in l2 id hi c cs used s here)) ∙ e) in
        let whole = count_in l2 id hi c cs used s here ∙ on in
        let (same, kept) = get_keeps c.lcore s got in
        let s' = (cos_assoc_get m c.lcore s).1 in
        let (later, still) =
          used_on_lem l2 id hi cs (marked cos) s' {out = out} short
            (ap (λ t. t.0) (sym whole) ∙ e) in
        (
          λ k h.
              later k h
              ∙ ap (λ b. marked cos k || b) (in_use_same g s' s l2 id cs k kept)
              ∙ mark_step l2 id hi k cos used s c (in_use g s l2 id cs k) here same h short,
          λ d r. ap (λ t. g.peek t.1 d r) whole ∙ still d r ∙ kept d r,
        )
    | inr away ↦
        let whole = skip l2 id hi c cs used s away in
        let (later, still) =
          used_on_lem l2 id hi cs used s {out = out} short (ap (λ t. t.0) (sym whole) ∙ e) in
        (
          λ k h.
              later k h
              ∙ ap (λ b. used k || ((b && class_in g s c.lcore == k) || in_use g s l2 id cs k))
                  (sym away),
          λ d r. ap (λ t. g.peek t.1 d r) whole ∙ still d r,
        )
  ]
