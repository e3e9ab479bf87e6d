-- ===== src/Alloc/Reset/Keeps.antt =====
-- Which registers each phase of the reset leaves alone.
use multi_resource_isolation.Prelude.{
  ℕ, ◌-◌, ◌^◌, ◌<◌, ◌≡◌, ◌≢◌, refl, ◌∙◌, inl, Bool, not, List, [], ◌∷◌, Option, none, some, bit_and,
  bit_or, if◌then◌else◌,
}
use multi_resource_isolation.Types.{Result, ok, err, Action, lift, pure, ◌>>=◌, ◌>>◌}
use multi_resource_isolation.Msr.{
  Msr, Registers, msr_assoc, msr_mba_mask_start, read_msr, write_msr,
}
use multi_resource_isolation.Cpu.{get_one_core, get_one_by_l2id, get_l2ids}
use multi_resource_isolation.Cap.{Cap, CapL3ca, CapL2ca, CapMba, l3cdp_change}
use multi_resource_isolation.Alloc.{Platform, msr_l2ca_mask_start, msr_l3_qos_cfg}
use multi_resource_isolation.Alloc.Assoc.{cos_assoc_set}
use multi_resource_isolation.Alloc.Assoc.Field.{cos_assoc_set_others}
use multi_resource_isolation.Alloc.Assign.{after, release_all}
use multi_resource_isolation.Alloc.Reset.{
  CdpConfig, alloc_cos_reset, reset_on, cdp_enable, alloc_assoc_reset, reset_mba, reset_l2,
  reset_l2_ids, reset_rest, switch_cdp_to, lcores_of, cdp_switch, all_ways,
}
use multi_resource_isolation.Alloc.Reset.Phase.{Apart, reset_outside}

-- A call that changes register `r` of no core, whether or not it succeeds.
abbrev pub Preserves : {m : Msr} → Registers m → ℕ → {A : Type 0} → Action m.State A → Type 0
Preserves {m} g r x = (s : m.State) (c : ℕ) → g.peek (x s).1 c r ≡ g.peek s c r

module _ {m : Msr} (g : Registers m) (r : ℕ) where
  pub keeps_bind :
      {A B : Type 0} (x : Action m.State A) (f : A → Action m.State B)
      → Preserves g r x
      → ((a : A) → Preserves g r (f a))
      → Preserves g r (x >>= f)
  keeps_bind {A} {B} x f hx hf s c = goes_on (x s).0 (x s).1 ∙ hx s c
    where
      goes_on :
          (q : Result A) (t : m.State)
          → g.peek (elim q as (λ _. Result B × m.State) [ ok a ↦ f a t | err e ↦ (err e, t) ]).1 c r
            ≡ g.peek t c r
      goes_on (ok a) t = hf a t c
      goes_on (err e) t = refl

  keeps_read : (core reg : ℕ) → Preserves g r (read_msr m core reg)
  keeps_read core reg s c = g.read_keeps core reg s c r

  keeps_write : (core reg v : ℕ) → r ≢ reg → Preserves g r (write_msr m core reg v)
  keeps_write core reg v ne s c = g.write_others core reg v s c r ne

  pub reset_on_keeps :
      (core_of : ℕ → Result ℕ) (reg n v : ℕ) (ids : List ℕ)
      → Apart reg n r
      → Preserves g r (reset_on m core_of reg n v ids)
  unfolding reset_on
  reset_on_keeps core_of reg n v [] out = λ s c. refl
  reset_on_keeps core_of reg n v (id ∷ ids) out =
      let more = reset_on m core_of reg n v ids in
      let one = λ (core : ℕ). alloc_cos_reset m reg n core v (ok tt) in
      keeps_bind (lift (core_of id)) (λ core. one core >> more) (λ s c. refl)
        (λ core.
          keeps_bind (one core) (λ u. more)
            (λ s c. reset_outside m g v n reg core (ok tt) s c r out)
            (λ u. reset_on_keeps core_of reg n v ids out))

  release_all_keeps :
      (cores : List ℕ) (ret : Result (Unit {0}))
      → r ≢ msr_assoc
      → Preserves g r (release_all m cores ret)
  unfolding release_all
  release_all_keeps [] ret ne s c = refl
  release_all_keeps (lcore ∷ cores) ret ne s c =
      release_all_keeps cores (after ret (cos_assoc_set m lcore 0 s).0) ne
        (cos_assoc_set m lcore 0 s).1 c
      ∙ cos_assoc_set_others m g lcore 0 s c r ne

  module _ (p : Platform) where
    cdp_enable_keeps :
        (enable : Bool) (sockets : List ℕ)
        → r ≢ msr_l3_qos_cfg
        → Preserves g r (cdp_enable m p enable sockets)
    unfolding cdp_enable
    cdp_enable_keeps enable [] ne = λ s c. refl
    cdp_enable_keeps enable (socket ∷ sockets) ne =
        let more = cdp_enable m p enable sockets in
        let put = λ (core v : ℕ).
          write_msr m core msr_l3_qos_cfg (if enable then bit_or v 1 else bit_and v (2 ^ 64 - 2)) in
        let one = λ (core : ℕ). read_msr m core msr_l3_qos_cfg >>= λ v. put core v >> more in
        keeps_bind (lift (get_one_core p.cpu socket)) one (λ s c. refl)
          (λ core.
            keeps_bind (read_msr m core msr_l3_qos_cfg) (λ v. put core v >> more)
              (keeps_read core msr_l3_qos_cfg)
              (λ v.
                keeps_bind (put core v) (λ u. more) (keeps_write core msr_l3_qos_cfg _ ne)
                  (λ u. cdp_enable_keeps enable sockets ne)))

    pub switch_keeps :
        (switch : Option Bool) (sockets : List ℕ)
        → r ≢ msr_l3_qos_cfg
        → Preserves g r (switch_cdp_to m p switch sockets)
    switch_keeps none sockets ne = λ s c. refl
    switch_keeps (some enable) sockets ne =
        keeps_bind (cdp_enable m p enable sockets)
          (λ u. pure (l3cdp_change (not enable) enable p.cap)) (cdp_enable_keeps enable sockets ne)
          (λ u s c. refl)

    -- The phases after the L3 masks change no register below the L2 masks but the associations and
    -- the CDP switch.
    pub rest_keeps :
        (cfg : CdpConfig) (l3_cap : Option CapL3ca) (mba_cap : Option CapMba) (sockets : List ℕ)
        → r < msr_mba_mask_start
        → r ≢ msr_assoc
        → r ≢ msr_l3_qos_cfg
        → Preserves g r (reset_rest m p cfg l3_cap mba_cap sockets)
    unfolding alloc_assoc_reset
    rest_keeps cfg l3_cap mba_cap sockets low class cdp =
        let switch = switch_cdp_to m p (cdp_switch cfg l3_cap) sockets in
        keeps_bind (reset_mba m p mba_cap sockets) (λ u. alloc_assoc_reset m p >> switch)
          (mba_keeps mba_cap)
          (λ u.
            keeps_bind (alloc_assoc_reset m p) (λ w. switch)
              (release_all_keeps (lcores_of p.cpu.cores) (ok tt) class)
              (λ w. switch_keeps (cdp_switch cfg l3_cap) sockets cdp))
      where
        mba_keeps : (cap : Option CapMba) → Preserves g r (reset_mba m p cap sockets)
        mba_keeps none = λ s c. refl
        mba_keeps (some mba) =
            reset_on_keeps (get_one_core p.cpu) msr_mba_mask_start mba.num_classes 0 sockets
              (inl low)

    pub reset_l2_keeps :
        (granted : Bool) (l2_cap : Option CapL2ca) (rest : Action m.State Cap)
        → r < msr_l2ca_mask_start
        → Preserves g r rest
        → Preserves g r (reset_l2 m p granted l2_cap rest)
    reset_l2_keeps granted none rest low h = h
    reset_l2_keeps granted (some l2) rest low h = listed_keeps (get_l2ids granted p.cpu)
      where
        listed_keeps : (l2ids : Option (List ℕ)) → Preserves g r (reset_l2_ids m p l2 l2ids rest)
        listed_keeps none = λ s c. refl
        listed_keeps (some []) = λ s c. refl
        listed_keeps (some (id ∷ more)) =
            keeps_bind
              (reset_on m (get_one_by_l2id p.cpu) msr_l2ca_mask_start l2.num_classes
                (all_ways p l2.num_ways) (id ∷ more))
              (λ u. rest)
              (reset_on_keeps (get_one_by_l2id p.cpu) msr_l2ca_mask_start l2.num_classes
                (all_ways p l2.num_ways) (id ∷ more) (inl low))
              (λ u. h)
