-- ===== src/Alloc/L3/Set.antt =====
-- What `hw_l3ca_set` leaves in the mask registers.
use multi_resource_isolation.Prelude.{
  ℕ, ◌+◌, ◌*◌, ◌^◌, ◌<◌, ◌≡◌, refl, sym, ap, ◌∙◌, false, List, [], ◌∷◌, All, arith, u32,
  if◌then◌else◌, ◌==◌,
}
use multi_resource_isolation.Types.{ok, Retval, Action, fail_if, ◌>>◌}
use multi_resource_isolation.Types.Bind.{bind_of_ok, ok_of_bind}
use multi_resource_isolation.Msr.{Msr, Accepts, write_msr}
use multi_resource_isolation.Msr.Access.{write_msr_total}
use multi_resource_isolation.Msr.Writes.{Writes, last, write_all}
use multi_resource_isolation.Alloc.{msr_l3ca_mask_start}
use multi_resource_isolation.Alloc.L3.{L3ca, ways_mask, set_ways, set_cdp}

abbrev pub ways_reg : L3ca → ℕ
ways_reg ca = u32 (ca.class_id + msr_l3ca_mask_start)

-- The writes of the two loops.
abbrev pub ways_writes : List L3ca → Writes
ways_writes [] = []
ways_writes (ca ∷ cas) = (ways_reg ca, ways_mask ca) ∷ ways_writes cas

abbrev pub cdp_writes : List L3ca → Writes
cdp_writes [] = []
cdp_writes (ca ∷ cas) =
    let reg = u32 (u32 (ca.class_id * 2) + msr_l3ca_mask_start) in
    (reg, if ca.cdp then ca.data_mask else ways_mask ca)
    ∷ (u32 (reg + 1), if ca.cdp then ca.code_mask else ways_mask ca)
    ∷ cdp_writes cas

module _ (m : Msr) where
  pub set_cdp-eq :
      (core : ℕ) (cas : List L3ca) → set_cdp m core cas ≡ write_all m core (cdp_writes cas)
  unfolding set_cdp write_all
  set_cdp-eq core [] = refl
  set_cdp-eq core (ca ∷ cas) =
      let reg = u32 (u32 (ca.class_id * 2) + msr_l3ca_mask_start) in
      ap
        (λ (rest : Action m.State (Unit {0})).
          write_msr m core reg (if ca.cdp then ca.data_mask else ways_mask ca)
          >> (write_msr m core (u32 (reg + 1)) (if ca.cdp then ca.code_mask else ways_mask ca)
              >> rest))
        (set_cdp-eq core cas)

  set_ways_step :
      (core : ℕ) (ca : L3ca) (cas : List L3ca) (s : m.State)
      → ca.cdp ≡ false
      → set_ways m core (ca ∷ cas) s
        ≡ (write_msr m core (ways_reg ca) (ways_mask ca) >> set_ways m core cas) s
  unfolding set_ways
  set_ways_step core ca cas s off =
      ap
        (λ b.
          (fail_if b Retval.error
              >> (write_msr m core (ways_reg ca) (ways_mask ca) >> set_ways m core cas))
            s)
        off

  set_ways_off :
      (core : ℕ) (ca : L3ca) (cas : List L3ca) (s : m.State)
      → (set_ways m core (ca ∷ cas) s).0 ≡ ok tt
      → ca.cdp ≡ false
  unfolding set_ways
  set_ways_off core ca cas s h = ground arith

  -- With CDP off an entry with two masks is an error, so a success means that there was none.
  pub set_ways_ok :
      (core : ℕ) (cas : List L3ca) (s : m.State)
      → (set_ways m core cas s).0 ≡ ok tt
      → (set_ways m core cas s ≡ write_all m core (ways_writes cas) s)
        × All (λ ca. ca.cdp ≡ false) cas
  unfolding set_ways write_all
  set_ways_ok core [] s h = (refl, tt)
  set_ways_ok core (ca ∷ cas) s h =
      let off = set_ways_off core ca cas s h in
      let step = set_ways_step core ca cas s off in
      let (_, done, on) =
        ok_of_bind (write_msr m core (ways_reg ca) (ways_mask ca)) (λ _. set_ways m core cas) s
          (ap (λ t. t.0) (sym step) ∙ h) in
      let s' = (write_msr m core (ways_reg ca) (ways_mask ca) s).1 in
      let (rest, flags) = set_ways_ok core cas s' (ap (λ t. t.0) (sym (step ∙ on)) ∙ h) in
      (
        step
            ∙ on
            ∙ rest
            ∙ sym (
                bind_of_ok (write_msr m core (ways_reg ca) (ways_mask ca))
                  (λ _. write_all m core (ways_writes cas)) s done),
        (off, flags),
      )

  pub set_ways_of_off :
      (core : ℕ) (cas : List L3ca) (s : m.State)
      → Accepts m
      → All (λ ca. ca.cdp ≡ false) cas
      → (set_ways m core cas s).0 ≡ ok tt
  unfolding set_ways
  set_ways_of_off core [] s a h = refl
  set_ways_of_off core (ca ∷ cas) s a h =
      ap (λ t. t.0)
        (set_ways_step core ca cas s h.0
          ∙ bind_of_ok (write_msr m core (ways_reg ca) (ways_mask ca)) (λ _. set_ways m core cas) s
              (write_msr_total m a core (ways_reg ca) (ways_mask ca) s))
      ∙ set_ways_of_off core cas (write_msr m core (ways_reg ca) (ways_mask ca) s).1 a h.1

-- The mask that a class has after the entries of a table, from the one that it had before: the
-- last entry for the class decides.
abbrev pub last_ways : List L3ca → ℕ → ℕ → ℕ
last_ways [] k old = old
last_ways (ca ∷ cas) k old = last_ways cas k (if ca.class_id == k then ways_mask ca else old)

abbrev pub last_data : List L3ca → ℕ → ℕ → ℕ
last_data [] k old = old
last_data (ca ∷ cas) k old = last_data cas k (if ca.class_id == k then ca.data_mask else old)

-- An entry with one mask sets it for code and data.
abbrev pub last_code : List L3ca → ℕ → ℕ → ℕ
last_code [] k old = old
last_code (ca ∷ cas) k old =
    last_code cas k
      (if ca.class_id == k then (if ca.cdp then ca.code_mask else ca.data_mask) else old)

-- The class has a register of its own, and the masks are 64-bit words.
abbrev pub InRange : ℕ → L3ca → Type 0
InRange n ca = (ca.class_id < n) × (ca.data_mask < 2 ^ 64) × (ca.code_mask < 2 ^ 64)

pub last-ways_writes :
    (cas : List L3ca) (k old : ℕ)
    → All (InRange 128) cas
    → k < 128
    → last (ways_writes cas) (msr_l3ca_mask_start + k) old ≡ last_ways cas k old
last-ways_writes [] k old h low = refl
last-ways_writes (ca ∷ cas) k old h low =
    last-ways_writes cas k (if ways_reg ca == msr_l3ca_mask_start + k then ways_mask ca else old)
      h.1 low
    ∙ ap (last_ways cas k) (ground (arith, h.0))

pub last-cdp_data :
    (cas : List L3ca) (k old : ℕ)
    → All (InRange 64) cas
    → k < 64
    → last (cdp_writes cas) (msr_l3ca_mask_start + 2 * k) old ≡ last_data cas k old
last-cdp_data [] k old h low = refl
last-cdp_data (ca ∷ cas) k old h low =
    last-cdp_data cas k _ h.1 low ∙ ap (last_data cas k) (ground (arith, h.0))

pub last-cdp_code :
    (cas : List L3ca) (k old : ℕ)
    → All (InRange 64) cas
    → k < 64
    → last (cdp_writes cas) (msr_l3ca_mask_start + 2 * k + 1) old ≡ last_code cas k old
last-cdp_code [] k old h low = refl
last-cdp_code (ca ∷ cas) k old h low =
    last-cdp_code cas k _ h.1 low ∙ ap (last_code cas k) (ground (arith, h.0))
