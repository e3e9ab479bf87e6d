-- ===== src/Alloc/L3/Registers.antt =====
-- The registers after `hw_l3ca_set`, class by class.
use multi_resource_isolation.Prelude.{
  ℕ, ◌+◌, ◌*◌, ◌≤◌, ◌<◌, ◌≡◌, ◌≢◌, sym, ap, ◌∙◌, ◌⊎◌, Bool, true, false, List, [], ◌∷◌, All, arith,
  if◌then◌else◌, ◌==◌, length, ltb, le→ltb, Bool-cases, inl, inr,
}
use multi_resource_isolation.Types.{ok, err, Retval}
use multi_resource_isolation.Msr.{Msr, Registers, Accepts}
use multi_resource_isolation.Msr.Writes.{
  Exact, write_all, register_after, register_kept, write_all_total,
}
use multi_resource_isolation.Cpu.{get_one_core}
use multi_resource_isolation.Cap.{l3ca_get_cos_num, l3ca_cdp_enabled}
use multi_resource_isolation.Alloc.{Platform, msr_l3ca_mask_start}
use multi_resource_isolation.Alloc.L3.{L3ca, set_ways, set_cdp, hw_l3ca_set}
use multi_resource_isolation.Alloc.L3.Set.{
  ways_writes, cdp_writes, set_cdp-eq, set_ways_ok, set_ways_of_off, last_ways, last_data,
  last_code, InRange, last-ways_writes, last-cdp_data, last-cdp_code,
}

ways-Exact : (cas : List L3ca) → All (InRange 128) cas → All Exact (ways_writes cas)
ways-Exact [] h = tt
ways-Exact (ca ∷ cas) h = (omega (arith, h.0), ways-Exact cas h.1)

cdp-Exact : (cas : List L3ca) → All (InRange 64) cas → All Exact (cdp_writes cas)
cdp-Exact [] h = tt
cdp-Exact (ca ∷ cas) h = (ground (arith, h.0), (ground (arith, h.0), cdp-Exact cas h.1))

-- The registers outside those of the L3 masks.
abbrev pub OutsideL3 : ℕ → Type 0
OutsideL3 r = (r < msr_l3ca_mask_start) ⊎ (msr_l3ca_mask_start + 128 ≤ r)

ways_outside :
    (r : ℕ) (cas : List L3ca)
    → OutsideL3 r
    → All (InRange 128) cas
    → All (λ w. w.0 ≢ r) (ways_writes cas)
ways_outside r [] o h = tt
ways_outside r (ca ∷ cas) o h = (omega (arith, h.0), ways_outside r cas o h.1)

cdp_outside :
    (r : ℕ) (cas : List L3ca)
    → OutsideL3 r
    → All (InRange 64) cas
    → All (λ w. w.0 ≢ r) (cdp_writes cas)
cdp_outside r [] o h = tt
cdp_outside r (ca ∷ cas) o h = (omega (arith, h.0), (omega (arith, h.0), cdp_outside r cas o h.1))

module _ (m : Msr) (p : Platform) (socket count core : ℕ) (cdp : Bool × Bool)
    (classes : l3ca_get_cos_num p.interface p.cap ≡ ok count)
    (flags : l3ca_cdp_enabled p.interface p.cap ≡ ok cdp)
    (found : get_one_core p.cpu socket ≡ ok core) where
  -- The calls before the loops, and the guard between them.
  pub hw_l3ca_set-guards :
      (ca : List L3ca) (s : m.State)
      → hw_l3ca_set m p socket ca s ≡ (
          if ltb count (length ca)
          then (err Retval.error, s)
          else (if cdp.1 then set_cdp m core ca s else set_ways m core ca s))
  unfolding hw_l3ca_set
  hw_l3ca_set-guards ca s = ground arith

  -- What is left where the guards pass and a success came back.
  set_loop :
      (ca : List L3ca) (s : m.State)
      → (hw_l3ca_set m p socket ca s).0 ≡ ok tt
      → (length ca ≤ count)
        × (hw_l3ca_set m p socket ca s
            ≡ (if cdp.1 then set_cdp m core ca s else set_ways m core ca s))
  set_loop ca s h = ground (arith, hw_l3ca_set-guards ca s)

  cdp_loop_ok :
      (ca : List L3ca) (s : m.State)
      → Accepts m
      → cdp.1 ≡ true
      → (if cdp.1 then set_cdp m core ca s else set_ways m core ca s).0 ≡ ok tt
  cdp_loop_ok ca s a on =
      ap (λ b. (if b then set_cdp m core ca s else set_ways m core ca s).0) on
      ∙ ap (λ f. (f s).0) (set_cdp-eq m core ca)
      ∙ write_all_total m a core (cdp_writes ca) s

  loop_ok :
      (ca : List L3ca) (s : m.State)
      → Accepts m
      → (cdp.1 ≡ true) ⊎ All (λ e. e.cdp ≡ false) ca
      → (if cdp.1 then set_cdp m core ca s else set_ways m core ca s).0 ≡ ok tt
  loop_ok ca s a (inl on) = cdp_loop_ok ca s a on
  loop_ok ca s a (inr plain) = elim (Bool-cases cdp.1) [
    | inl on ↦ cdp_loop_ok ca s a on
    | inr off ↦
        ap (λ b. (if b then set_cdp m core ca s else set_ways m core ca s).0) off
        ∙ set_ways_of_off m core ca s a plain
  ]

  -- With a driver that accepts every access, `hw_l3ca_set` succeeds where the table fits the classes
  -- and, with CDP off, has no entry with two masks.
  pub hw_l3ca_set-total :
      (ca : List L3ca) (s : m.State)
      → Accepts m
      → length ca ≤ count
      → (cdp.1 ≡ true) ⊎ All (λ e. e.cdp ≡ false) ca
      → (hw_l3ca_set m p socket ca s).0 ≡ ok tt
  hw_l3ca_set-total ca s a fits plain =
      ap (λ t. t.0)
        (hw_l3ca_set-guards ca s
          ∙ ap
              (λ b.
                if b
                then (err Retval.error, s)
                else (if cdp.1 then set_cdp m core ca s else set_ways m core ca s))
              (le→ltb count (length ca) fits))
      ∙ loop_ok ca s a plain

  module _ (g : Registers m) (ca : List L3ca) (s : m.State) (c k r : ℕ) where
    -- With CDP off a success of `hw_l3ca_set` means: the table fits the classes and has no entry
    -- with two masks; on every core that shares the register with the core written through, the
    -- register of class `k` holds the mask of the last entry for `k`, or its old value where there
    -- is none; on the other cores, and outside the L3 mask registers, nothing changed.
    pub hw_l3ca_set-ways :
        cdp.1 ≡ false
        → All (InRange 128) ca
        → k < 128
        → OutsideL3 r
        → (hw_l3ca_set m p socket ca s).0 ≡ ok tt
        → let s' = (hw_l3ca_set m p socket ca s).1 in
          let reg = msr_l3ca_mask_start + k in
          (length ca ≤ count)
          × All (λ e. e.cdp ≡ false) ca
          × (g.peek s' c reg ≡ (
              if g.domain reg c == g.domain reg core
              then last_ways ca k (g.peek s c reg)
              else g.peek s c reg))
          × (g.peek s' c r ≡ g.peek s c r)
    hw_l3ca_set-ways off range low out h =
        let (fits, looped) = set_loop ca s h in
        let into : hw_l3ca_set m p socket ca s ≡ set_ways m core ca s =
          looped ∙ ap (λ b. if b then set_cdp m core ca s else set_ways m core ca s) off in
        let (all, plain) = set_ways_ok m core ca s (ap (λ t. t.0) (sym into) ∙ h) in
        let whole = into ∙ all in
        let ws = ways_writes ca in
        let exact = ways-Exact ca range in
        let t = hw_l3ca_set m p socket ca s in
        (
          fits,
          plain,
          register_after m g core ws s t c (msr_l3ca_mask_start + k) _ whole h exact
              (last-ways_writes ca k _ range low),
          register_kept m g core ws s t c r whole h exact (ways_outside r ca out range),
        )

    -- The same with CDP on, where class `k` has two registers: the data mask in the even one and the
    -- code mask in the odd one; an entry with one mask sets both.
    pub hw_l3ca_set-cdp :
        cdp.1 ≡ true
        → All (InRange 64) ca
        → k < 64
        → OutsideL3 r
        → (hw_l3ca_set m p socket ca s).0 ≡ ok tt
        → let s' = (hw_l3ca_set m p socket ca s).1 in
          let data_reg = msr_l3ca_mask_start + 2 * k in
          let code_reg = msr_l3ca_mask_start + 2 * k + 1 in
          (length ca ≤ count)
          × (g.peek s' c data_reg ≡ (
              if g.domain data_reg c == g.domain data_reg core
              then last_data ca k (g.peek s c data_reg)
              else g.peek s c data_reg))
          × (g.peek s' c code_reg ≡ (
              if g.domain code_reg c == g.domain code_reg core
              then last_code ca k (g.peek s c code_reg)
              else g.peek s c code_reg))
          × (g.peek s' c r ≡ g.peek s c r)
    hw_l3ca_set-cdp on range low out h =
        let (fits, looped) = set_loop ca s h in
        let whole : hw_l3ca_set m p socket ca s ≡ write_all m core (cdp_writes ca) s =
          looped
          ∙ ap (λ b. if b then set_cdp m core ca s else set_ways m core ca s) on
          ∙ ap (λ f. f s) (set_cdp-eq m core ca) in
        let ws = cdp_writes ca in
        let exact = cdp-Exact ca range in
        let t = hw_l3ca_set m p socket ca s in
        (
          fits,
          register_after m g core ws s t c (msr_l3ca_mask_start + 2 * k) _ whole h exact
              (last-cdp_data ca k _ range low),
          register_after m g core ws s t c (msr_l3ca_mask_start + 2 * k + 1) _ whole h exact
              (last-cdp_code ca k _ range low),
          register_kept m g core ws s t c r whole h exact (cdp_outside r ca out range),
        )
