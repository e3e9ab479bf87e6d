-- ===== src/Alloc/Reset/Classes.antt =====
-- The core associations after `hw_alloc_reset`, and the reset that does not take place.
use multi_resource_isolation.Prelude.{
  ℕ, ◌≡◌, sym, ap, ◌∙◌, ◌⊎◌, inl, inr, Bool, true, arith, List, [], ◌∷◌, Option, none, some,
  if◌then◌else◌,
}
use multi_resource_isolation.Types.{ok, Action, ◌>>◌}
use multi_resource_isolation.Types.Bind.{ok_of_bind}
use multi_resource_isolation.Msr.{Msr, Registers, msr_assoc}
use multi_resource_isolation.Cpu.{get_sockets, get_l2ids, get_one_by_l2id, listed}
use multi_resource_isolation.Cap.{Cap, CapL2ca}
use multi_resource_isolation.Alloc.{Platform, msr_l2ca_mask_start}
use multi_resource_isolation.Alloc.Assoc.Field.{class_in, PerCore}
use multi_resource_isolation.Alloc.Assoc.{class_of}
use multi_resource_isolation.Alloc.Assign.Release.{release_all_lem}
use multi_resource_isolation.Alloc.Reset.{
  CdpConfig, reset_on, reset_l3, reset_mba, reset_l2, reset_l2_ids, reset_rest, reset_on_sockets,
  switch_cdp_to, cdp_switch, alloc_assoc_reset, hw_alloc_reset, all_ways, lcores_of,
}
use multi_resource_isolation.Alloc.Reset.Keeps.{switch_keeps}
use multi_resource_isolation.Alloc.Reset.Done.{l3_cap, l2_cap, mba_cap, all_passed}

-- There is no L2 allocation, or the L2 clusters can be listed.
abbrev pub L2Ready : Platform → Bool → Type 0
L2Ready p granted =
    (l2_cap p ≡ none) ⊎ ((id : ℕ) × (ids : List ℕ) × (get_l2ids granted p.cpu ≡ some (id ∷ ids)))

module _ (m : Msr) (g : Registers m) (own : PerCore g) (p : Platform) (cfg : CdpConfig) where
  -- From a state on which what follows the L2 reset succeeds.
  rest_classes :
      (sockets : List ℕ) (s : m.State) (c : ℕ) {cap' : Cap}
      → (reset_rest m p cfg (l3_cap p) (mba_cap p) sockets s).0 ≡ ok cap'
      → listed c (lcores_of p.cpu.cores) ≡ true
      → class_in g (reset_rest m p cfg (l3_cap p) (mba_cap p) sockets s).1 c ≡ 0
  unfolding alloc_assoc_reset
  rest_classes sockets s c h here =
      let switch = switch_cdp_to m p (cdp_switch cfg (l3_cap p)) sockets in
      let (u, mba_done, on) =
        ok_of_bind (reset_mba m p (mba_cap p) sockets) (λ u. alloc_assoc_reset m p >> switch) s h in
      let s' = (reset_mba m p (mba_cap p) sockets s).1 in
      let (w, done, next) =
        ok_of_bind (alloc_assoc_reset m p) (λ w. switch) s' (ap (λ t. t.0) (sym on) ∙ h) in
      let s'' = (alloc_assoc_reset m p s').1 in
      ap (λ t. class_in g t.1 c) (on ∙ next)
      ∙ ap class_of
          (switch_keeps g msr_assoc p (cdp_switch cfg (l3_cap p)) sockets (omega arith) s'' c)
      ∙ (release_all_lem m g own (lcores_of p.cpu.cores) s' c done).0
      ∙ ap (λ b. if b then 0 else class_in g s' c) here

  -- The same through the L2 reset.
  l2_classes :
      (granted : Bool) (sockets : List ℕ) (s : m.State) (c : ℕ) {cap' : Cap}
      → L2Ready p granted
      → let x =
          reset_l2 m p granted (l2_cap p) (reset_rest m p cfg (l3_cap p) (mba_cap p) sockets) in
        (x s).0 ≡ ok cap' → listed c (lcores_of p.cpu.cores) ≡ true → class_in g (x s).1 c ≡ 0
  l2_classes granted sockets s c ready h here = by_cap (l2_cap p) ready h
    where
      rest : Action m.State Cap
      rest = reset_rest m p cfg (l3_cap p) (mba_cap p) sockets

      ids_classes :
          {cap' : Cap} (l2 : CapL2ca) (l2ids : Option (List ℕ)) (id : ℕ) (ids : List ℕ)
          → l2ids ≡ some (id ∷ ids)
          → (reset_l2_ids m p l2 l2ids rest s).0 ≡ ok cap'
          → class_in g (reset_l2_ids m p l2 l2ids rest s).1 c ≡ 0
      ids_classes l2 none id ids e h = cc
      ids_classes l2 (some []) id ids e h = cc
      ids_classes l2 (some (x ∷ xs)) id ids e h =
          let one =
            reset_on m (get_one_by_l2id p.cpu) msr_l2ca_mask_start l2.num_classes
              (all_ways p l2.num_ways) (x ∷ xs) in
          let (u, done, on) = ok_of_bind one (λ u. rest) s h in
          ap (λ t. class_in g t.1 c) on
          ∙ rest_classes sockets (one s).1 c (ap (λ t. t.0) (sym on) ∙ h) here

      by_cap :
          {cap' : Cap} (l2 : Option CapL2ca)
          → (l2 ≡ none) ⊎ ((id : ℕ) × (ids : List ℕ) × (get_l2ids granted p.cpu ≡ some (id ∷ ids)))
          → (reset_l2 m p granted l2 rest s).0 ≡ ok cap'
          → class_in g (reset_l2 m p granted l2 rest s).1 c ≡ 0
      by_cap none ready h = rest_classes sockets s c h here
      by_cap (some l2) (inl e) h = cc
      by_cap (some l2) (inr (id, ids, e)) h = ids_classes l2 (get_l2ids granted p.cpu) id ids e h

  -- A success puts every core into class 0. It takes the list of sockets and, where there is L2
  -- allocation, the list of L2 clusters.
  pub hw_alloc_reset-class_in :
      (granted_l2ids : Bool) (s : m.State) (cap' : Cap) (first c : ℕ) (sockets : List ℕ)
      → (hw_alloc_reset m p true granted_l2ids cfg s).0 ≡ ok cap'
      → get_sockets true p.cpu ≡ some (first ∷ sockets)
      → L2Ready p granted_l2ids
      → listed c (lcores_of p.cpu.cores) ≡ true
      → class_in g (hw_alloc_reset m p true granted_l2ids cfg s).1 c ≡ 0
  hw_alloc_reset-class_in granted s cap' first c sockets h found ready here =
      let l3_done = reset_l3 m p (l3_cap p) (first ∷ sockets) in
      let rest =
        reset_l2 m p granted (l2_cap p)
          (reset_rest m p cfg (l3_cap p) (mba_cap p) (first ∷ sockets)) in
      let e : hw_alloc_reset m p true granted cfg s ≡ (l3_done >> rest) s =
        all_passed p m cfg true granted s h
        ∙ ap (λ ids. reset_on_sockets m p granted cfg (l3_cap p) (l2_cap p) (mba_cap p) ids s)
            found in
      let (u, done, on) = ok_of_bind l3_done (λ u. rest) s (ap (λ t. t.0) (sym e) ∙ h) in
      ap (λ t. class_in g t.1 c) (e ∙ on)
      ∙ l2_classes granted (first ∷ sockets) (l3_done s).1 c ready
          (ap (λ t. t.0) (sym (e ∙ on)) ∙ h) here
