-- ===== src/Alloc/Reset/Done.antt =====
-- What `hw_alloc_reset` has done when it returns OK.
use native.Mathlib.Nat.{pow-le-pow_right}
use multi_resource_isolation.Prelude.{
  ℕ, ◌^◌, ◌≤◌, ◌<◌, ◌≡◌, refl, sym, ap, subst, ◌-◌, ◌∙◌, Bool, true, false, not, ◌&&◌, arith, List,
  ◌∷◌, Option, some, In,
}
use multi_resource_isolation.Types.{ok, Retval, Action, fail_if, ◌>>◌}
use multi_resource_isolation.Types.Bind.{ok_of_bind}
use multi_resource_isolation.Msr.{Msr, Registers}
use multi_resource_isolation.Cpu.{get_sockets, get_one_core, listed}
use multi_resource_isolation.Cap.{
  Cap, CapL3ca, CapL2ca, CapMba, get_type, as_l3ca, as_l2ca, as_mba, l3ca_type, l2ca_type, mba_type,
}
use multi_resource_isolation.Alloc.{Platform, msr_l3ca_mask_start}
use multi_resource_isolation.Alloc.Reset.{
  CdpConfig, reset_l3, reset_l2, reset_rest, reset_on_sockets, hw_alloc_reset, all_ways,
  l3_registers, present, is_none, is_any, cdp_missing,
}
use multi_resource_isolation.Alloc.Reset.Phase.{Among}
use multi_resource_isolation.Alloc.Reset.Loop.{on_within}
use multi_resource_isolation.Alloc.Reset.Keeps.{rest_keeps, reset_l2_keeps}

module _ (m : Msr) where
  -- A check that was passed.
  passed :
      {A : Type 0} (b : Bool) (e : Retval) (k : Action m.State A) (s : m.State) {a : A}
      → ((fail_if b e >> k) s).0 ≡ ok a
      → (fail_if b e >> k) s ≡ k s
  passed true e k s h = cc
  passed false e k s h = refl

module _ (p : Platform) where
  abbrev pub l3_cap : Option CapL3ca
  l3_cap = present (as_l3ca (get_type p.interface p.cap l3ca_type))

  abbrev pub l2_cap : Option CapL2ca
  l2_cap = present (as_l2ca (get_type p.interface p.cap l2ca_type))

  abbrev pub mba_cap : Option CapMba
  mba_cap = present (as_mba (get_type p.interface p.cap mba_type))

  module _ (m : Msr) (cfg : CdpConfig) (granted_sockets granted_l2ids : Bool) (s : m.State) where
    abbrev after_checks : Action m.State Cap
    after_checks =
        reset_on_sockets m p granted_l2ids cfg l3_cap l2_cap mba_cap
          (get_sockets granted_sockets p.cpu)

    -- A success has passed the checks.
    pub all_passed :
        {cap' : Cap}
        → (hw_alloc_reset m p granted_sockets granted_l2ids cfg s).0 ≡ ok cap'
        → hw_alloc_reset m p granted_sockets granted_l2ids cfg s ≡ after_checks s
    unfolding hw_alloc_reset
    all_passed h =
        let last_check = fail_if (cdp_missing cfg l3_cap) Retval.param >> after_checks in
        let a =
          passed m (is_none l2_cap && (is_none l3_cap && is_none mba_cap)) Retval.resource
            (fail_if (is_none l3_cap && not (is_any cfg)) Retval.resource >> last_check) s h in
        let b =
          passed m (is_none l3_cap && not (is_any cfg)) Retval.resource last_check s
            (ap (λ t. t.0) (sym a) ∙ h) in
        let c =
          passed m (cdp_missing cfg l3_cap) Retval.param after_checks s
            (ap (λ t. t.0) (sym (a ∙ b)) ∙ h) in
        a ∙ b ∙ c

-- Below 64 ways the mask is that of all ways, and a 64-bit word.
all_ways_lem : (p : Platform) (n : ℕ) → n < 64 → all_ways p n ≡ 2 ^ n - 1
all_ways_lem p n h = ground arith

ways-word : (n : ℕ) → n < 64 → 2 ^ n - 1 < 2 ^ 64
ways-word n h =
    let most : n ≤ 64 = omega arith in omega (arith, pow-le-pow_right {n = 2} (omega arith) most)

module _ (m : Msr) (g : Registers m) (p : Platform) (cfg : CdpConfig) (l3 : CapL3ca) where
  -- A success means that every L3 mask register in use allows all ways, on every core that shares
  -- it with the core through which one of the sockets is reset; nothing later in the call undoes
  -- that. It takes the list of sockets, at most 128 registers and fewer than 64 ways.
  pub hw_alloc_reset_lem :
      (granted_l2ids : Bool) (s : m.State) (cap' : Cap) (first socket core lcore r : ℕ)
      (sockets : List ℕ)
      → (hw_alloc_reset m p true granted_l2ids cfg s).0 ≡ ok cap'
      → as_l3ca (get_type p.interface p.cap l3ca_type) ≡ ok l3
      → get_sockets true p.cpu ≡ some (first ∷ sockets)
      → In socket (first ∷ sockets)
      → get_one_core p.cpu socket ≡ ok core
      → g.domain r lcore ≡ g.domain r core
      → l3_registers l3 ≤ 128
      → l3.num_ways < 64
      → Among msr_l3ca_mask_start (l3_registers l3) r
      → g.peek (hw_alloc_reset m p true granted_l2ids cfg s).1 lcore r ≡ 2 ^ l3.num_ways - 1
  hw_alloc_reset_lem granted s cap' first socket core lcore r sockets h l3_there listed i found near
        few ways inside =
      let rest =
        reset_l2 m p granted (l2_cap p)
          (reset_rest m p cfg (some l3) (mba_cap p) (first ∷ sockets)) in
      let e : hw_alloc_reset m p true granted cfg s
          ≡ (reset_l3 m p (some l3) (first ∷ sockets) >> rest) s =
        all_passed p m cfg true granted s h
        ∙ ap
            (λ l3_cap.
              reset_on_sockets m p granted cfg l3_cap (l2_cap p) (mba_cap p)
                (get_sockets true p.cpu) s)
            (ap present l3_there)
        ∙ ap (λ ids. reset_on_sockets m p granted cfg (some l3) (l2_cap p) (mba_cap p) ids s)
            listed in
      let (u, done, on) =
        ok_of_bind (reset_l3 m p (some l3) (first ∷ sockets)) (λ u. rest) s
          (ap (λ t. t.0) (sym e) ∙ h) in
      let s' = (reset_l3 m p (some l3) (first ∷ sockets) s).1 in
      let full = all_ways_lem p l3.num_ways ways in
      ap (λ t. g.peek t.1 lcore r) (e ∙ on)
      ∙ reset_l2_keeps g r p granted (l2_cap p)
          (reset_rest m p cfg (some l3) (mba_cap p) (first ∷ sockets)) (omega arith)
          (rest_keeps g r p cfg (some l3) (mba_cap p) (first ∷ sockets) (omega arith) (omega arith)
            (omega arith))
          s' lcore
      ∙ on_within m g (get_one_core p.cpu) msr_l3ca_mask_start (l3_registers l3)
          (all_ways p l3.num_ways) (omega arith)
          (subst (λ v. v < 2 ^ 64) (sym full) (ways-word l3.num_ways ways)) (first ∷ sockets) s
          socket core lcore r done i found near inside
      ∙ full
