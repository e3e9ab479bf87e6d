-- ===== src/Info/Ends.antt =====
-- The loops over the sub-leaves of CPUID come to an end.
use multi_resource_isolation.Prelude.{
  ℕ, zero, suc, ◌+◌, ◌<◌, ◌≡◌, sym, ap, ap₂, ◌∙◌, [], ◌∷◌, false, ◌||◌, leb, ◌==◌, eq→==,
  if◌then◌else◌, arith, Option, none, some, Bool-cases, Option-cases, inl, inr,
}
use multi_resource_isolation.Info.{
  Processors, ApicInfo, Caches, ended, Levels, note_level, note_cache, cache_type, zero_apic,
  zero_cache, walk_levels, walk_caches, core_masks, cache_masks, with_caches, with_levels,
  detect_apic_masks,
}

module _ (h : Processors) where
  walk_levels_total :
      (rounds k subleaf : ℕ) (s : Levels)
      → k < rounds
      → (h.cpuid h.here 0xB (subleaf + k)).ebx ≡ 0
      → (out : Levels) × (walk_levels h rounds subleaf s ≡ ended out)
  unfolding walk_levels
  walk_levels_total zero k subleaf s l e = absurd (omega arith)
  walk_levels_total (suc rounds) zero subleaf s l e =
      let here : subleaf + 0 ≡ subleaf = omega arith in
      let last : (h.cpuid h.here 0xB subleaf).ebx ≡ 0 =
        ap (λ (n : ℕ). (h.cpuid h.here 0xB n).ebx) (sym here) ∙ e in
      (s, rw (eq→== (h.cpuid h.here 0xB subleaf).ebx 0 last))
  walk_levels_total (suc rounds) (suc k) subleaf s l e =
      elim (Bool-cases ((h.cpuid h.here 0xB subleaf).ebx == 0)) [
        | inl last ↦ (s, rw last)
        | inr more ↦
            let next : subleaf + suc k ≡ subleaf + 1 + k = omega arith in
            let (out, done) =
              walk_levels_total rounds k (subleaf + 1) (note_level (h.cpuid h.here 0xB subleaf) s)
                (omega arith) (ap (λ (n : ℕ). (h.cpuid h.here 0xB n).ebx) (sym next) ∙ e) in
            (out, rw more done)
      ]

  walk_caches_total :
      (rounds k subleaf : ℕ) (s : Caches)
      → k < rounds
      → cache_type (h.cpuid h.here 0x4 (subleaf + k)) ≡ 0
      → (out : Caches) × (walk_caches h rounds subleaf s ≡ ended out)
  unfolding walk_caches
  walk_caches_total zero k subleaf s l e = absurd (omega arith)
  walk_caches_total (suc rounds) zero subleaf s l e =
      let here : subleaf + 0 ≡ subleaf = omega arith in
      let type = cache_type (h.cpuid h.here 0x4 subleaf) in
      let last : type ≡ 0 = ap (λ (n : ℕ). cache_type (h.cpuid h.here 0x4 n)) (sym here) ∙ e in
      let rest = walk_caches h rounds (subleaf + 1) (note_cache (h.cpuid h.here 0x4 subleaf) s) in
      (s, ap (λ b. if b || leb 4 type then ended s else rest) (eq→== type 0 last))
  walk_caches_total (suc rounds) (suc k) subleaf s l e =
      let type = cache_type (h.cpuid h.here 0x4 subleaf) in
      elim (Bool-cases (type == 0 || leb 4 type)) [
        | inl last ↦ (s, rw last)
        | inr more ↦
            let next : subleaf + suc k ≡ subleaf + 1 + k = omega arith in
            let (out, done) =
              walk_caches_total rounds k (subleaf + 1) (note_cache (h.cpuid h.here 0x4 subleaf) s)
                (omega arith) (ap (λ (n : ℕ). cache_type (h.cpuid h.here 0x4 n)) (sym next) ∙ e) in
            (out, rw more done)
      ]

  caches_total :
      (apic : ApicInfo) (t : Caches)
      → (out : Option (ApicInfo × Caches)) × (with_caches h apic (ended t) ≡ ended out)
  caches_total apic t = elim (Option-cases (cache_masks h apic t)) [
    | inl e ↦ (none, rw e)
    | inr (a, e) ↦ (some (a, t), rw e)
  ]

  masks_total :
      (s : Levels) (t : Caches)
      → (out : Option (ApicInfo × Caches)) × (with_levels h (ended s) (ended t) ≡ ended out)
  masks_total s t = elim (Option-cases (core_masks h s)) [
    | inl e ↦ (none, rw (e, with_levels))
    | inr (apic, e) ↦ let (out, done) = caches_total apic t in (out, rw (e, with_levels) done)
  ]

  -- Where one of the first `rounds` sub-leaves of each kind is the last, `rounds` are enough for
  -- both loops of `detect_apic_masks`, which end without an upper bound in the code.
  pub detect_apic_masks_total :
      (rounds k j : ℕ)
      → k < rounds
      → j < rounds
      → (h.cpuid h.here 0xB k).ebx ≡ 0
      → cache_type (h.cpuid h.here 0x4 j) ≡ 0
      → (out : Option (ApicInfo × Caches)) × (detect_apic_masks h rounds ≡ ended out)
  unfolding detect_apic_masks
  detect_apic_masks_total rounds k j kl jl e f =
      let zero_levels : Levels = record {
        apic = zero_apic;
        core_reported = false;
        thread_reported = false;
      } in
      let zero_caches : Caches = record {
        cache_level_shift = 0 ∷ 0 ∷ 0 ∷ 0 ∷ [];
        l2 = zero_cache;
        l3 = zero_cache;
      } in
      let from_zero = λ (n : ℕ). let z : 0 + n ≡ n = omega arith in z in
      let (s, levels) =
        walk_levels_total rounds k 0 zero_levels kl
          (ap (λ (n : ℕ). (h.cpuid h.here 0xB n).ebx) (from_zero k) ∙ e) in
      let (t, caches) =
        walk_caches_total rounds j 0 zero_caches jl
          (ap (λ (n : ℕ). cache_type (h.cpuid h.here 0x4 n)) (from_zero j) ∙ f) in
      let (out, done) = masks_total s t in
      (out, ap₂ (λ a c. with_levels h a c) levels caches ∙ done)
