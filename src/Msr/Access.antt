-- ===== src/Msr/Access.antt =====
-- One register access, as the loops of the allocation code make it.
use native.Mathlib.Decide.{ℕ_discrete}
use multi_resource_isolation.Prelude.{
  ℕ, ◌^◌, ◌<◌, ◌≡◌, ◌≢◌, sym, ap, subst, eq→==, ne→==, true, some, arith, ◌==◌, if◌then◌else◌,
}
use multi_resource_isolation.Types.{ok}
use multi_resource_isolation.Msr.{Msr, Registers, Accepts, msr_mba_mask_start, read_msr, write_msr}

module _ (m : Msr) where
  -- The outcomes told apart.
  pub write_msr_ok :
      (core reg v : ℕ) (s : m.State)
      → (write_msr m core reg v s).0 ≡ ok tt
      → (m.write core reg v s).0 ≡ true
  write_msr_ok core reg v s h = ground arith

  pub read_msr_ok :
      (core reg v : ℕ) (s : m.State)
      → (read_msr m core reg s).0 ≡ ok v
      → (m.read core reg s).0 ≡ some v
  read_msr_ok core reg v s h = ground arith

module _ (m : Msr) (a : Accepts m) where
  pub write_msr_total : (core reg v : ℕ) (s : m.State) → (write_msr m core reg v s).0 ≡ ok tt
  write_msr_total core reg v s = rw (a.writes core reg v s)

module _ (m : Msr) (g : Registers m) where
  -- What a successful write leaves in a register of the writer's domain.
  pub write_msr_near :
      (core reg v : ℕ) (s : m.State) (c r : ℕ)
      → (write_msr m core reg v s).0 ≡ ok tt
      → reg < msr_mba_mask_start
      → v < 2 ^ 64
      → g.domain r c ≡ g.domain r core
      → g.peek (write_msr m core reg v s).1 c r ≡ (if reg == r then v else g.peek s c r)
  write_msr_near core reg v s c r h low word near = elim (ℕ_discrete reg r) [
    | yes e ↦ rw (eq→== reg r e) (
        rw (← e) (
          g.write_value core reg v s c (write_msr_ok m core reg v s h) low word
            (subst (λ x. g.domain x c ≡ g.domain x core) (sym e) near)))
    | no n ↦ rw (ne→== reg r n) (g.write_others core reg v s c r (λ e. n (sym e)))
  ]

  -- A core of another domain of a register keeps its value, whatever is written.
  pub write_msr_far :
      (core reg v : ℕ) (s : m.State) (c r : ℕ)
      → g.domain r c ≢ g.domain r core
      → g.peek (write_msr m core reg v s).1 c r ≡ g.peek s c r
  write_msr_far core reg v s c r far = elim (ℕ_discrete reg r) [
    | yes e ↦
        rw (← e) (
          g.write_elsewhere core reg v s c
            (subst (λ x. g.domain x c ≢ g.domain x core) (sym e) far))
    | no n ↦ g.write_others core reg v s c r (λ e. n (sym e))
  ]

  -- A successful read returns the register, and a read changes none.
  pub read_msr_value :
      (core reg v : ℕ) (s : m.State) → (read_msr m core reg s).0 ≡ ok v → v ≡ g.peek s core reg
  read_msr_value core reg v s h = g.read_value core reg v s (read_msr_ok m core reg v s h)

module _ (m : Msr) (a : Accepts m) (g : Registers m) where
  -- With a driver that accepts every access a read returns the register.
  pub read_msr_peek :
      (core reg : ℕ) (s : m.State) → (read_msr m core reg s).0 ≡ ok (g.peek s core reg)
  read_msr_peek core reg s =
      let (v, e) = a.reads core reg s in
      let same : v ≡ g.peek s core reg = g.read_value core reg v s e in rw e (ap ok same)
