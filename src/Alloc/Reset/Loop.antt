-- ===== src/Alloc/Reset/Loop.antt =====
-- The loop of a reset over its sockets or L2 clusters, where it ends well.
use multi_resource_isolation.Prelude.{
  ℕ, ◌+◌, ◌^◌, ◌≤◌, ◌<◌, ◌≡◌, sym, ap, ◌∙◌, inl, inr, List, [], ◌∷◌, In,
}
use multi_resource_isolation.Types.{Result, ok, lift, ◌>>◌}
use multi_resource_isolation.Types.Bind.{ok_of_bind}
use multi_resource_isolation.Msr.{Msr, Registers, msr_mba_mask_start}
use multi_resource_isolation.Alloc.Reset.{alloc_cos_reset, reset_on}
use multi_resource_isolation.Alloc.Reset.Phase.{Among, reset_within, reset_stays}

module _ (m : Msr) (g : Registers m) (core_of : ℕ → Result ℕ) (reg n v : ℕ)
    (low : reg + n ≤ msr_mba_mask_start) (word : v < 2 ^ 64) where
  -- The steps of one round of a loop that ends well.
  round :
      (id : ℕ) (ids : List ℕ) (s : m.State)
      → (reset_on m core_of reg n v (id ∷ ids) s).0 ≡ ok tt
      → (core : ℕ) × (core_of id ≡ ok core)
        × ((alloc_cos_reset m reg n core v (ok tt) s).0 ≡ ok tt)
        × (reset_on m core_of reg n v (id ∷ ids) s
            ≡ reset_on m core_of reg n v ids (alloc_cos_reset m reg n core v (ok tt) s).1)
  unfolding reset_on
  round id ids s h =
      let more = reset_on m core_of reg n v ids in
      let one = λ (core : ℕ). alloc_cos_reset m reg n core v (ok tt) in
      let (core, found, on) = ok_of_bind (lift (core_of id)) (λ core. one core >> more) s h in
      let (u, done, next) = ok_of_bind (one core) (λ u. more) s (ap (λ t. t.0) (sym on) ∙ h) in
      (core, found, done, on ∙ next)

  -- A register that holds the reset value keeps it to the end of the loop.
  on_stays :
      (ids : List ℕ) (s : m.State) (c r : ℕ)
      → (reset_on m core_of reg n v ids s).0 ≡ ok tt
      → g.peek s c r ≡ v
      → g.peek (reset_on m core_of reg n v ids s).1 c r ≡ v
  unfolding reset_on
  on_stays [] s c r h e = e
  on_stays (id ∷ ids) s c r h e =
      let (core, found, done, on) = round id ids s h in
      ap (λ t. g.peek t.1 c r) on
      ∙ on_stays ids (alloc_cos_reset m reg n core v (ok tt) s).1 c r (ap (λ t. t.0) (sym on) ∙ h)
          (reset_stays m g v n reg core (ok tt) s c r low word e)

  -- Every register of the range holds it on the cores that share one with the core written to.
  pub on_within :
      (ids : List ℕ) (s : m.State) (id core c r : ℕ)
      → (reset_on m core_of reg n v ids s).0 ≡ ok tt
      → In id ids
      → core_of id ≡ ok core
      → g.domain r c ≡ g.domain r core
      → Among reg n r
      → g.peek (reset_on m core_of reg n v ids s).1 c r ≡ v
  unfolding reset_on
  on_within [] s id core c r h i found near inside = absurd i
  on_within (x ∷ ids) s id core c r h (inl here) found near inside =
      let (core', found', done, on) = round x ids s h in
      let same : core ≡ core' = cc in
      ap (λ t. g.peek t.1 c r) on
      ∙ on_stays ids (alloc_cos_reset m reg n core' v (ok tt) s).1 c r (ap (λ t. t.0) (sym on) ∙ h)
          (reset_within m g v n reg core' s c r done low word inside (near ∙ ap (g.domain r) same))
  on_within (x ∷ ids) s id core c r h (inr later) found near inside =
      let (core', found', done, on) = round x ids s h in
      ap (λ t. g.peek t.1 c r) on
      ∙ on_within ids (alloc_cos_reset m reg n core' v (ok tt) s).1 id core c r
          (ap (λ t. t.0) (sym on) ∙ h) later found near inside
