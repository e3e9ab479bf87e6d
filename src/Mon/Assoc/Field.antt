-- ===== src/Mon/Assoc/Field.antt =====
-- One association register under `mon_assoc_set`: the RMID changes, the class stays.
use multi_resource_isolation.Prelude.{
  ℕ, ◌+◌, ◌*◌, ◌/◌, ◌%◌, ◌^◌, ◌<◌, ◌≡◌, ◌≢◌, refl, sym, ap, ◌∙◌, bit_and-ones, bit_and-upper,
  bit_or-upper, arith, ◌==◌, if◌then◌else◌, eq→==, ne→==,
}
use native.Mathlib.Decide.{ℕ_discrete}
use multi_resource_isolation.Types.{ok, pure}
use multi_resource_isolation.Types.Bind.{bind_of_ok, ok_of_bind, ok_same}
use multi_resource_isolation.Msr.{Msr, Registers, Accepts, msr_assoc, read_msr, write_msr}
use multi_resource_isolation.Msr.Access.{
  read_msr_peek, read_msr_value, write_msr_near, write_msr_far, write_msr_total,
}
use multi_resource_isolation.Msr.Keeps.{Keeps, bind-Keeps, read_msr-Keeps, write_msr-Keeps}
use multi_resource_isolation.Alloc.Assoc.{class_of}
use multi_resource_isolation.Alloc.Assoc.Field.{PerCore, class_in}
use multi_resource_isolation.Mon.Assoc.{rmid_of, with_rmid, mon_assoc_get, mon_assoc_set}

with_rmid-sum :
    (val rmid : ℕ) → val < 2 ^ 64 → with_rmid val rmid ≡ val / 2 ^ 32 * 2 ^ 32 + rmid % 2 ^ 10
unfolding with_rmid
with_rmid-sum val rmid word =
    rw (bit_and-upper val word)
      (rw (bit_and-ones 10 rmid) (bit_or-upper (val / 2 ^ 32) (rmid % 2 ^ 10) (omega arith)))

pub with_rmid_fields :
    (val rmid : ℕ)
    → val < 2 ^ 64
    → (class_of (with_rmid val rmid) ≡ class_of val)
      × (rmid_of (with_rmid val rmid) ≡ rmid % 2 ^ 10)
      × (with_rmid val rmid < 2 ^ 64)
with_rmid_fields val rmid word = (
  omega (arith, with_rmid-sum val rmid word),
  omega (arith, with_rmid-sum val rmid word, bit_and-ones 10 (with_rmid val rmid)),
  omega (arith, with_rmid-sum val rmid word),
)

-- The RMID of a core.
abbrev pub rmid_in : {m : Msr} → Registers m → m.State → ℕ → ℕ
rmid_in g s core = rmid_of (g.peek s core msr_assoc)

module _ (m : Msr) (g : Registers m) where
  -- A read that succeeds gives the RMID and changes no register.
  pub mon_assoc_get_value :
      (lcore : ℕ) (s : m.State) {v : ℕ} → (mon_assoc_get m lcore s).0 ≡ ok v → v ≡ rmid_in g s lcore
  unfolding mon_assoc_get
  mon_assoc_get_value lcore s h =
      let (val, read, on) =
        ok_of_bind (read_msr m lcore msr_assoc) (λ x t. (ok (rmid_of x), t)) s h in
      sym (ok_same (ap (λ t. t.0) (sym on) ∙ h))
      ∙ ap rmid_of (read_msr_value m g lcore msr_assoc val s read)

  pub mon_assoc_get-Keeps : (lcore : ℕ) {reg : ℕ} → Keeps g reg (mon_assoc_get m lcore)
  unfolding mon_assoc_get
  mon_assoc_get-Keeps lcore =
      bind-Keeps g (read_msr m lcore msr_assoc) (λ val. pure (rmid_of val))
        (read_msr-Keeps g lcore msr_assoc) (λ val s c. refl)

  pub mon_assoc_set-Keeps :
      (lcore rmid : ℕ) {reg : ℕ} → msr_assoc ≢ reg → Keeps g reg (mon_assoc_set m lcore rmid)
  unfolding mon_assoc_set
  mon_assoc_set-Keeps lcore rmid ne =
      bind-Keeps g (read_msr m lcore msr_assoc)
        (λ val. write_msr m lcore msr_assoc (with_rmid val rmid)) (read_msr-Keeps g lcore msr_assoc)
        (λ val. write_msr-Keeps g lcore msr_assoc (with_rmid val rmid) ne)

module _ (m : Msr) (g : Registers m) (lcore rmid : ℕ) (s : m.State) where
  -- The two steps of `mon_assoc_set` where it succeeds.
  set_steps :
      (mon_assoc_set m lcore rmid s).0 ≡ ok tt
      → let old = g.peek s lcore msr_assoc in
        let s' = (read_msr m lcore msr_assoc s).1 in
        (mon_assoc_set m lcore rmid s ≡ write_msr m lcore msr_assoc (with_rmid old rmid) s')
        × ((write_msr m lcore msr_assoc (with_rmid old rmid) s').0 ≡ ok tt)
  unfolding mon_assoc_set
  set_steps h =
      let write = λ (val : ℕ). write_msr m lcore msr_assoc (with_rmid val rmid) in
      let (val, read, on) = ok_of_bind (read_msr m lcore msr_assoc) write s h in
      let s' = (read_msr m lcore msr_assoc s).1 in
      let same = read_msr_value m g lcore msr_assoc val s read in
      let whole = on ∙ ap (λ v. write v s') same in (whole, ap (λ t. t.0) (sym whole) ∙ h)

  module _ (c : ℕ) (own : PerCore g) (h : (mon_assoc_set m lcore rmid s).0 ≡ ok tt) where
    set_near :
        c ≡ lcore
        → g.peek (mon_assoc_set m lcore rmid s).1 c msr_assoc
          ≡ with_rmid (g.peek s lcore msr_assoc) rmid
    set_near e =
        let (whole, done) = set_steps h in
        let old = g.peek s lcore msr_assoc in
        let s' = (read_msr m lcore msr_assoc s).1 in
        ap (λ t. g.peek t.1 c msr_assoc) whole
        ∙ write_msr_near m g lcore msr_assoc (with_rmid old rmid) s' c msr_assoc done (omega arith)
            (with_rmid_fields old rmid (g.word s lcore msr_assoc)).2 (ap (g.domain msr_assoc) e)

    set_far :
        ¬ (c ≡ lcore) → g.peek (mon_assoc_set m lcore rmid s).1 c msr_assoc ≡ g.peek s c msr_assoc
    set_far ne =
        let (whole, done) = set_steps h in
        let old = g.peek s lcore msr_assoc in
        let s' = (read_msr m lcore msr_assoc s).1 in
        ap (λ t. g.peek t.1 c msr_assoc) whole
        ∙ write_msr_far m g lcore msr_assoc (with_rmid old rmid) s' c msr_assoc
            (λ e. ne (own c lcore e))
        ∙ g.read_keeps lcore msr_assoc s c msr_assoc

    -- A success of `mon_assoc_set` changes the RMID of that core alone, to the lower 10 bits of the
    -- one given, and no class.
    pub mon_assoc_set_lem :
        (rmid_in g (mon_assoc_set m lcore rmid s).1 c
          ≡ (if c == lcore then rmid % 2 ^ 10 else rmid_in g s c))
        × (class_in g (mon_assoc_set m lcore rmid s).1 c ≡ class_in g s c)
    mon_assoc_set_lem = elim (ℕ_discrete c lcore) [
      | yes e ↦
          let f = with_rmid_fields (g.peek s lcore msr_assoc) rmid (g.word s lcore msr_assoc) in
          (
            ap rmid_of (set_near e)
                ∙ f.1
                ∙ sym (ap (λ b. if b then rmid % 2 ^ 10 else rmid_in g s c) (eq→== c lcore e)),
            ap class_of (set_near e) ∙ f.0 ∙ ap (λ d. class_in g s d) (sym e),
          )
      | no ne ↦ (
        ap rmid_of (set_far ne)
            ∙ sym (ap (λ b. if b then rmid % 2 ^ 10 else rmid_in g s c) (ne→== c lcore ne)),
        ap class_of (set_far ne),
      )
    ]

module _ (m : Msr) (a : Accepts m) (g : Registers m) where
  pub mon_assoc_get_total :
      (lcore : ℕ) (s : m.State) → (mon_assoc_get m lcore s).0 ≡ ok (rmid_in g s lcore)
  unfolding mon_assoc_get
  mon_assoc_get_total lcore s =
      ap (λ t. t.0)
        (bind_of_ok (read_msr m lcore msr_assoc) (λ val. pure (rmid_of val)) s
          (read_msr_peek m a g lcore msr_assoc s))

  pub mon_assoc_set_total :
      (lcore rmid : ℕ) (s : m.State) → (mon_assoc_set m lcore rmid s).0 ≡ ok tt
  unfolding mon_assoc_set
  mon_assoc_set_total lcore rmid s =
      let write = λ (val : ℕ). write_msr m lcore msr_assoc (with_rmid val rmid) in
      let val = g.peek s lcore msr_assoc in
      ap (λ t. t.0)
        (bind_of_ok (read_msr m lcore msr_assoc) write s (read_msr_peek m a g lcore msr_assoc s))
      ∙ write_msr_total m a lcore msr_assoc (with_rmid val rmid) (read_msr m lcore msr_assoc s).1
