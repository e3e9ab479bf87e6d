-- ===== src/Alloc/Reset/Phase.antt =====
-- One reset loop: what it writes, what it leaves alone, and what no later loop undoes.
use native.Mathlib.Decide.{ℕ_discrete}
use multi_resource_isolation.Prelude.{
  ℕ, zero, suc, ◌+◌, ◌^◌, ◌≤◌, ◌<◌, ◌≡◌, refl, sym, ap, subst, ◌∙◌, ◌⊎◌, inl, inr, arith,
  if◌then◌else◌, Bool-cases, eq→==,
}
use multi_resource_isolation.Types.{Result, ok, err, Retval, Result-cases}
use multi_resource_isolation.Msr.{Msr, Registers, msr_mba_mask_start, write_msr}
use multi_resource_isolation.Msr.Access.{write_msr_near}
use multi_resource_isolation.Alloc.Assign.{after}
use multi_resource_isolation.Alloc.Reset.{alloc_cos_reset}

-- The registers from `reg` on, `n` of them.
abbrev pub Among : ℕ → ℕ → ℕ → Type 0
Among reg n r = (reg ≤ r) × (r < reg + n)

abbrev pub Apart : ℕ → ℕ → ℕ → Type 0
Apart reg n r = (r < reg) ⊎ (reg + n ≤ r)

module _ (m : Msr) (g : Registers m) (v : ℕ) where
  -- A register that holds `v` still does after `v` is written anywhere, whether or not that fails.
  write_stays :
      (core reg : ℕ) (s : m.State) (c r : ℕ)
      → reg < msr_mba_mask_start
      → v < 2 ^ 64
      → g.peek s c r ≡ v
      → g.peek (write_msr m core reg v s).1 c r ≡ v
  write_stays core reg s c r low word e = elim (Bool-cases (m.write core reg v s).0) [
    | inl done ↦ elim (ℕ_discrete reg r) [
      | yes same ↦ elim (ℕ_discrete (g.domain reg c) (g.domain reg core)) [
        | yes near ↦
            subst (λ x. g.peek (m.write core reg v s).1 c x ≡ v) same
              (g.write_value core reg v s c done low word near)
        | no far ↦
            subst (λ x. g.peek (m.write core reg v s).1 c x ≡ v) same
              (g.write_elsewhere core reg v s c far ∙ ap (g.peek s c) same ∙ e)
      ]
      | no ne ↦ g.write_others core reg v s c r (λ q. ne (sym q)) ∙ e
    ]
    | inr refused ↦ g.write_refused core reg v s c r refused ∙ e
  ]

  pub reset_stays :
      (n reg core : ℕ) (ret : Result (Unit {0})) (s : m.State) (c r : ℕ)
      → reg + n ≤ msr_mba_mask_start
      → v < 2 ^ 64
      → g.peek s c r ≡ v
      → g.peek (alloc_cos_reset m reg n core v ret s).1 c r ≡ v
  unfolding alloc_cos_reset
  reset_stays zero reg core ret s c r low word e = e
  reset_stays (suc n) reg core ret s c r low word e =
      reset_stays n (reg + 1) core (after ret (write_msr m core reg v s).0)
        (write_msr m core reg v s).1 c r (omega arith) word
        (write_stays core reg s c r (omega arith) word e)

  -- Registers outside the range keep their values, whatever the outcome.
  pub reset_outside :
      (n reg core : ℕ) (ret : Result (Unit {0})) (s : m.State) (c r : ℕ)
      → Apart reg n r
      → g.peek (alloc_cos_reset m reg n core v ret s).1 c r ≡ g.peek s c r
  unfolding alloc_cos_reset
  reset_outside zero reg core ret s c r out = refl
  reset_outside (suc n) reg core ret s c r out =
      reset_outside n (reg + 1) core (after ret (write_msr m core reg v s).0)
        (write_msr m core reg v s).1 c r (omega arith)
      ∙ g.write_others core reg v s c r (omega arith)

  reset_never_ok :
      (n reg core : ℕ) (e : Retval) (s : m.State)
      → (alloc_cos_reset m reg n core v (err e) s).0 ≡ ok tt
      → ⊥
  unfolding alloc_cos_reset
  reset_never_ok zero reg core e s h = cc
  reset_never_ok (suc n) reg core e s h =
      let one = write_msr m core reg v s in
      let rest = λ (x : Result (Unit {0})).
        (alloc_cos_reset m (reg + 1) n core v (after (err e) x) one.1).0 in
      elim (Result-cases one.0) [
        | inl (u, q) ↦ reset_never_ok n (reg + 1) core e one.1 (sym (ap rest q) ∙ h)
        | inr (x, f) ↦ reset_never_ok n (reg + 1) core Retval.error one.1 (sym (ap rest f) ∙ h)
      ]

  -- A loop that ends well had every write go through.
  reset_started :
      (n reg core : ℕ) (x : Result (Unit {0})) (s : m.State)
      → (alloc_cos_reset m reg n core v (after (ok tt) x) s).0 ≡ ok tt
      → x ≡ ok tt
  reset_started n reg core (ok u) s h = refl
  reset_started n reg core (err e) s h = absurd (reset_never_ok n reg core Retval.error s h)

  -- A success means that every register of the range holds `v` on the cores that share it.
  pub reset_within :
      (n reg core : ℕ) (s : m.State) (c r : ℕ)
      → (alloc_cos_reset m reg n core v (ok tt) s).0 ≡ ok tt
      → reg + n ≤ msr_mba_mask_start
      → v < 2 ^ 64
      → Among reg n r
      → g.domain r c ≡ g.domain r core
      → g.peek (alloc_cos_reset m reg n core v (ok tt) s).1 c r ≡ v
  unfolding alloc_cos_reset
  reset_within zero reg core s c r h low word inside near = absurd (omega arith)
  reset_within (suc n) reg core s c r h low word inside near =
      let s' = (write_msr m core reg v s).1 in
      let rest =
        λ (x : Result (Unit {0})). alloc_cos_reset m (reg + 1) n core v (after (ok tt) x) s' in
      let done = reset_started n (reg + 1) core (write_msr m core reg v s).0 s' h in
      ap (λ x. g.peek (rest x).1 c r) done ∙ elim (ℕ_discrete reg r) [
        | yes same ↦ reset_stays n (reg + 1) core (ok tt) s' c r (omega arith) word (
            write_msr_near m g core reg v s c r done (omega arith) word near
            ∙ ap (λ b. if b then v else g.peek s c r) (eq→== reg r same))
        | no ne ↦
            reset_within n (reg + 1) core s' c r (ap (λ x. (rest x).0) (sym done) ∙ h) (omega arith)
              word (omega arith) near
      ]
