-- ===== src/Msr/Writes.antt =====
-- A sequence of register writes from one core, which stops at the first that fails: the loops of
-- `hw_l3ca_set`, `hw_l2ca_set` and their like come down to it.
use native.Mathlib.Decide.{ℕ_discrete}
use multi_resource_isolation.Prelude.{
  Bool, true, false, ℕ, ◌^◌, ◌<◌, ◌≡◌, ◌≢◌, refl, sym, ap, ◌∙◌, List, [], ◌∷◌, All, ◌==◌,
  if◌then◌else◌, ne→==, eq→==,
}
use multi_resource_isolation.Types.{Result, ok, Action, pure, ◌>>◌}
use multi_resource_isolation.Types.Bind.{bind_of_ok, ok_of_bind}
use multi_resource_isolation.Msr.{Msr, Registers, Accepts, msr_mba_mask_start, write_msr}
use multi_resource_isolation.Msr.Access.{write_msr_near, write_msr_far, write_msr_total}

-- Register and value of each write.
abbrev pub Writes : Type 0
Writes = List (ℕ × ℕ)

-- What a register holds after the writes, from what it held before: its last value written.
abbrev pub last : Writes → ℕ → ℕ → ℕ
last [] r old = old
last ((q, v) ∷ ws) r old = last ws r (if q == r then v else old)

-- The registers keep a value as written, and the values are 64-bit words.
abbrev pub Exact : ℕ × ℕ → Type 0
Exact w = (w.0 < msr_mba_mask_start) × (w.1 < 2 ^ 64)

-- A register that none of the writes names keeps its value.
pub last_untouched : (ws : Writes) (r old : ℕ) → All (λ w. w.0 ≢ r) ws → last ws r old ≡ old
last_untouched [] r old h = refl
last_untouched ((q, v) ∷ ws) r old h = rw (ne→== q r h.0) (last_untouched ws r old h.1)

module _ (m : Msr) where
  unfoldable pub write_all : ℕ → Writes → Action m.State (Unit {0})
  write_all core [] = pure tt
  write_all core ((r, v) ∷ ws) = write_msr m core r v >> write_all core ws

module _ (m : Msr) (g : Registers m) where
  pub write_all_near :
      (core : ℕ) (ws : Writes) (s : m.State) (c r : ℕ)
      → (write_all m core ws s).0 ≡ ok tt
      → All Exact ws
      → g.domain r c ≡ g.domain r core
      → g.peek (write_all m core ws s).1 c r ≡ last ws r (g.peek s c r)
  unfolding write_all
  write_all_near core [] s c r h e near = refl
  write_all_near core ((q, v) ∷ ws) s c r h e near =
      let (u, done, on) = ok_of_bind (write_msr m core q v) (λ _. write_all m core ws) s h in
      let s' = (write_msr m core q v s).1 in
      ap (λ t. g.peek t.1 c r) on
      ∙ write_all_near core ws s' c r (ap (λ t. t.0) (sym on) ∙ h) e.1 near
      ∙ ap (last ws r) (write_msr_near m g core q v s c r done e.0.0 e.0.1 near)

  pub write_all_far :
      (core : ℕ) (ws : Writes) (s : m.State) (c r : ℕ)
      → (write_all m core ws s).0 ≡ ok tt
      → g.domain r c ≢ g.domain r core
      → g.peek (write_all m core ws s).1 c r ≡ g.peek s c r
  unfolding write_all
  write_all_far core [] s c r h far = refl
  write_all_far core ((q, v) ∷ ws) s c r h far =
      let (u, done, on) = ok_of_bind (write_msr m core q v) (λ _. write_all m core ws) s h in
      let s' = (write_msr m core q v s).1 in
      ap (λ t. g.peek t.1 c r) on
      ∙ write_all_far core ws s' c r (ap (λ t. t.0) (sym on) ∙ h) far
      ∙ write_msr_far m g core q v s c r far

module _ (m : Msr) (a : Accepts m) where
  pub write_all_total : (core : ℕ) (ws : Writes) (s : m.State) → (write_all m core ws s).0 ≡ ok tt
  unfolding write_all
  write_all_total core [] s = refl
  write_all_total core ((q, v) ∷ ws) s =
      ap (λ t. t.0)
        (bind_of_ok (write_msr m core q v) (λ _. write_all m core ws) s
          (write_msr_total m a core q v s))
      ∙ write_all_total core ws (write_msr m core q v s).1

module _ (m : Msr) (g : Registers m) where
  -- Every register of every core after the writes went through.
  pub write_all-peek :
      (core : ℕ) (ws : Writes) (s : m.State) (c r : ℕ)
      → (write_all m core ws s).0 ≡ ok tt
      → All Exact ws
      → g.peek (write_all m core ws s).1 c r
        ≡ (if g.domain r c == g.domain r core then last ws r (g.peek s c r) else g.peek s c r)
  write_all-peek core ws s c r h e = elim (ℕ_discrete (g.domain r c) (g.domain r core)) [
    | yes near ↦ rw (eq→== _ _ near) (write_all_near m g core ws s c r h e near)
    | no far ↦ rw (ne→== _ _ far) (write_all_far m g core ws s c r h far)
  ]

  -- The same of a call that ended as the writes do, a register at a time.
  pub register_after :
      (core : ℕ) (ws : Writes) (s : m.State) (t : Result (Unit {0}) × m.State) (c r new : ℕ)
      → t ≡ write_all m core ws s
      → t.0 ≡ ok tt
      → All Exact ws
      → last ws r (g.peek s c r) ≡ new
      → g.peek t.1 c r ≡ (if g.domain r c == g.domain r core then new else g.peek s c r)
  register_after core ws s t c r new e h x p =
      ap (λ u. g.peek u.1 c r) e
      ∙ write_all-peek core ws s c r (ap (λ u. u.0) (sym e) ∙ h) x
      ∙ ap (λ v. if g.domain r c == g.domain r core then v else g.peek s c r) p

  pub register_kept :
      (core : ℕ) (ws : Writes) (s : m.State) (t : Result (Unit {0}) × m.State) (c r : ℕ)
      → t ≡ write_all m core ws s
      → t.0 ≡ ok tt
      → All Exact ws
      → All (λ w. w.0 ≢ r) ws
      → g.peek t.1 c r ≡ g.peek s c r
  register_kept core ws s t c r e h x untouched =
      register_after core ws s t c r (g.peek s c r) e h x
        (last_untouched ws r (g.peek s c r) untouched)
      ∙ if_same (g.domain r c == g.domain r core) (g.peek s c r)
    where
      if_same : (b : Bool) (v : ℕ) → (if b then v else v) ≡ v
      if_same true v = refl
      if_same false v = refl
