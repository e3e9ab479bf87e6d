-- ===== src/Alloc/Assoc/Field.antt =====
-- One association register: setting the class keeps the RMID, and reading gives the class back.
use multi_resource_isolation.Prelude.{
  ℕ, ◌+◌, ◌*◌, ◌%◌, ◌^◌, ◌<◌, ◌≡◌, ◌≢◌, sym, ap, ◌∙◌, bit_and-ones, bit_or-fields, u64, arith, ◌==◌,
  if◌then◌else◌, eq→==, ne→==, Option-cases, inl, inr,
}
use native.Mathlib.Decide.{ℕ_discrete}
use multi_resource_isolation.Types.{ok, pure}
use multi_resource_isolation.Types.Bind.{bind_of_ok, ok_of_bind}
use multi_resource_isolation.Msr.{Msr, Registers, Accepts, msr_assoc, read_msr, write_msr}
use multi_resource_isolation.Msr.Access.{
  read_msr_peek, read_msr_value, write_msr_near, write_msr_far, write_msr_total,
}
use multi_resource_isolation.Alloc.Assoc.{class_of, with_class, cos_assoc_get, cos_assoc_set}

-- The RMID field and its reserved neighbours: the lower half of the register.
abbrev pub rmid_half : ℕ → ℕ
rmid_half val = val % 2 ^ 32

with_class-sum :
    (val class_id : ℕ)
    → class_id < 2 ^ 32
    → with_class val class_id ≡ class_id * 2 ^ 32 + val % 2 ^ 32
unfolding with_class
with_class-sum val class_id h =
    let word : u64 (class_id * 2 ^ 32) ≡ class_id * 2 ^ 32 = omega arith in
    rw word (rw (bit_and-ones 32 val) (bit_or-fields 32 class_id (val % 2 ^ 32) (omega arith)))

pub with_class_fields :
    (val class_id : ℕ)
    → class_id < 2 ^ 32
    → (class_of (with_class val class_id) ≡ class_id)
      × (rmid_half (with_class val class_id) ≡ rmid_half val)
      × (with_class val class_id < 2 ^ 64)
with_class_fields val class_id h = (
  omega (arith, with_class-sum val class_id h),
  omega (arith, with_class-sum val class_id h),
  omega (arith, with_class-sum val class_id h),
)

-- Each core has an association register of its own.
abbrev pub PerCore : {m : Msr} → Registers m → Type 0
PerCore g = (c d : ℕ) → g.domain msr_assoc c ≡ g.domain msr_assoc d → c ≡ d

-- The class that a core is associated with.
abbrev pub class_in : {m : Msr} → Registers m → m.State → ℕ → ℕ
class_in g s core = class_of (g.peek s core msr_assoc)

module _ (m : Msr) (g : Registers m) (lcore class_id : ℕ) (s : m.State) where
  -- The two steps of `cos_assoc_set` where it succeeds.
  set_steps :
      (cos_assoc_set m lcore class_id s).0 ≡ ok tt
      → let old = g.peek s lcore msr_assoc in
        let s' = (read_msr m lcore msr_assoc s).1 in
        (cos_assoc_set m lcore class_id s
          ≡ write_msr m lcore msr_assoc (with_class old class_id) s')
        × ((write_msr m lcore msr_assoc (with_class old class_id) s').0 ≡ ok tt)
  unfolding cos_assoc_set
  set_steps h =
      let write = λ (val : ℕ). write_msr m lcore msr_assoc (with_class val class_id) in
      let (val, read, on) = ok_of_bind (read_msr m lcore msr_assoc) write s h in
      let s' = (read_msr m lcore msr_assoc s).1 in
      let same = read_msr_value m g lcore msr_assoc val s read in
      let whole = on ∙ ap (λ v. write v s') same in (whole, ap (λ t. t.0) (sym whole) ∙ h)

  module _ (c : ℕ) (own : PerCore g) (word : class_id < 2 ^ 32)
      (h : (cos_assoc_set m lcore class_id s).0 ≡ ok tt) where
    set_near :
        c ≡ lcore
        → g.peek (cos_assoc_set m lcore class_id s).1 c msr_assoc
          ≡ with_class (g.peek s lcore msr_assoc) class_id
    set_near e =
        let (whole, done) = set_steps h in
        let old = g.peek s lcore msr_assoc in
        let s' = (read_msr m lcore msr_assoc s).1 in
        ap (λ t. g.peek t.1 c msr_assoc) whole
        ∙ write_msr_near m g lcore msr_assoc (with_class old class_id) s' c msr_assoc done
            (omega arith) (with_class_fields old class_id word).2 (ap (g.domain msr_assoc) e)

    set_far :
        ¬ (c ≡ lcore)
        → g.peek (cos_assoc_set m lcore class_id s).1 c msr_assoc ≡ g.peek s c msr_assoc
    set_far ne =
        let (whole, done) = set_steps h in
        let old = g.peek s lcore msr_assoc in
        let s' = (read_msr m lcore msr_assoc s).1 in
        ap (λ t. g.peek t.1 c msr_assoc) whole
        ∙ write_msr_far m g lcore msr_assoc (with_class old class_id) s' c msr_assoc
            (λ e. ne (own c lcore e))
        ∙ g.read_keeps lcore msr_assoc s c msr_assoc

    -- A success of `cos_assoc_set` changes the class of that core alone, and no RMID.
    pub cos_assoc_set_lem :
        (class_in g (cos_assoc_set m lcore class_id s).1 c
          ≡ (if c == lcore then class_id else class_in g s c))
        × (rmid_half (g.peek (cos_assoc_set m lcore class_id s).1 c msr_assoc)
            ≡ rmid_half (g.peek s c msr_assoc))
    cos_assoc_set_lem = elim (ℕ_discrete c lcore) [
      | yes e ↦
          let f = with_class_fields (g.peek s lcore msr_assoc) class_id word in
          (
            ap class_of (set_near e)
                ∙ f.0
                ∙ sym (ap (λ b. if b then class_id else class_in g s c) (eq→== c lcore e)),
            ap rmid_half (set_near e) ∙ f.1 ∙ ap (λ d. rmid_half (g.peek s d msr_assoc)) (sym e),
          )
      | no ne ↦ (
        ap class_of (set_far ne)
            ∙ sym (ap (λ b. if b then class_id else class_in g s c) (ne→== c lcore ne)),
        ap rmid_half (set_far ne),
      )
    ]

  -- It touches no other register.
  pub cos_assoc_set_others :
      (c r : ℕ) → r ≢ msr_assoc → g.peek (cos_assoc_set m lcore class_id s).1 c r ≡ g.peek s c r
  unfolding cos_assoc_set
  cos_assoc_set_others c r ne =
      let s' = (m.read lcore msr_assoc s).1 in
      let kept = g.read_keeps lcore msr_assoc s c r in
      elim (Option-cases (m.read lcore msr_assoc s).0) [
        | inl e ↦ ground (arith, kept)
        | inr (v, e) ↦
            ground (arith, kept, g.write_others lcore msr_assoc (with_class v class_id) s' c r ne)
      ]

module _ (m : Msr) (a : Accepts m) (g : Registers m) where
  pub cos_assoc_get_lem :
      (lcore : ℕ) (s : m.State) → (cos_assoc_get m lcore s).0 ≡ ok (class_in g s lcore)
  unfolding cos_assoc_get
  cos_assoc_get_lem lcore s =
      ap (λ t. t.0)
        (bind_of_ok (read_msr m lcore msr_assoc) (λ val. pure (class_of val)) s
          (read_msr_peek m a g lcore msr_assoc s))

  pub cos_assoc_set_total :
      (lcore class_id : ℕ) (s : m.State) → (cos_assoc_set m lcore class_id s).0 ≡ ok tt
  unfolding cos_assoc_set
  cos_assoc_set_total lcore class_id s =
      let write = λ (val : ℕ). write_msr m lcore msr_assoc (with_class val class_id) in
      let val = g.peek s lcore msr_assoc in
      ap (λ t. t.0)
        (bind_of_ok (read_msr m lcore msr_assoc) write s (read_msr_peek m a g lcore msr_assoc s))
      ∙ write_msr_total m a lcore msr_assoc (with_class val class_id)
          (read_msr m lcore msr_assoc s).1
