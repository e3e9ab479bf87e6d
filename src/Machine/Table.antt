-- ===== src/Machine/Table.antt =====
-- The table of descriptors through the calls of lib/machine.c.
use multi_resource_isolation.Prelude.{
  ℕ, zero, suc, ◌+◌, ◌<◌, ◌≡◌, refl, sym, subst, ap, ◌∙◌, inl, inr, Bool, true, false, arith, ltb,
  u32, if◌then◌else◌, List, [], ◌∷◌, Option, none, some, length, Option-cases,
}
use multi_resource_isolation.Machine.{
  Driver, Outcome, machine_ok, machine_error, machine_param, Machine, all_closed, fd_at, set_fd,
  machine_init, close_all, machine_fini, msr_file_open, on_fd, on_table, with_fd, msr_read,
  msr_write, read_access, write_access,
}

length-all_closed : (n : ℕ) → length (all_closed n) ≡ n
unfolding all_closed
length-all_closed zero = refl
length-all_closed (suc n) = ap suc (length-all_closed n)

length-set_fd : (fds : List (Option ℕ)) (lcore fd : ℕ) → length (set_fd fds lcore fd) ≡ length fds
unfolding set_fd
length-set_fd [] lcore fd = refl
length-set_fd (x ∷ fds) zero fd = refl
length-set_fd (x ∷ fds) (suc lcore) fd = ap suc (length-set_fd fds lcore fd)

fd_at-set_fd :
    (fds : List (Option ℕ)) (lcore fd : ℕ)
    → lcore < length fds
    → fd_at (set_fd fds lcore fd) lcore ≡ some fd
unfolding fd_at set_fd
fd_at-set_fd [] lcore fd h = absurd (omega (arith, h))
fd_at-set_fd (x ∷ fds) zero fd h = refl
fd_at-set_fd (x ∷ fds) (suc lcore) fd h = fd_at-set_fd fds lcore fd (omega (arith, h))

module _ (d : Driver) where
  -- The table has one entry for each core, or there is none and no core is in range.
  abbrev pub Sized : Option (List (Option ℕ)) → ℕ → Type 0
  Sized none n = n ≡ 0
  Sized (some fds) n = length fds ≡ n

  abbrev pub IsSized : Machine d → Type 0
  IsSized s = Sized s.msr_fd s.maxcores

  -- The three outcomes of `msr_file_open`.
  open_cached :
      (lcore fd : ℕ) (fds : List (Option ℕ)) (s : Machine d)
      → fd_at fds lcore ≡ some fd
      → msr_file_open d lcore fds s ≡ (some fd, s)
  unfolding msr_file_open
  open_cached lcore fd fds s e = ground (arith, e)

  open_failed :
      (lcore : ℕ) (fds : List (Option ℕ)) (s : Machine d)
      → fd_at fds lcore ≡ none
      → (d.open_msr lcore s.world).0 ≡ none
      → msr_file_open d lcore fds s ≡ (none, record s { world = (d.open_msr lcore s.world).1 })
  unfolding msr_file_open
  open_failed lcore fds s e f = ground (arith, e, f)

  open_new :
      (lcore fd : ℕ) (fds : List (Option ℕ)) (s : Machine d)
      → fd_at fds lcore ≡ none
      → (d.open_msr lcore s.world).0 ≡ some fd
      → msr_file_open d lcore fds s ≡ (
        some fd,
        record s { msr_fd = some (set_fd fds lcore fd); world = (d.open_msr lcore s.world).1 },
      )
  unfolding msr_file_open
  open_new lcore fd fds s e f = ground (arith, e, f)

  open-IsSized :
      (lcore : ℕ) (fds : List (Option ℕ)) (s : Machine d)
      → IsSized s
      → length fds ≡ s.maxcores
      → IsSized (msr_file_open d lcore fds s).1
  open-IsSized lcore fds s h sized = elim (Option-cases (fd_at fds lcore)) [
    | inr (fd, cached) ↦ subst (λ x. IsSized x.1) (sym (open_cached lcore fd fds s cached)) h
    | inl closed ↦ elim (Option-cases (d.open_msr lcore s.world).0) [
      | inl failed ↦ subst (λ x. IsSized x.1) (sym (open_failed lcore fds s closed failed)) h
      | inr (fd, opened) ↦
          subst (λ x. IsSized x.1) (sym (open_new lcore fd fds s closed opened))
            (length-set_fd fds lcore fd ∙ sized)
    ]
  ]

  module _ {A : Type 0} (lcore : ℕ) (access : ℕ → Machine d → Outcome A × Machine d)
      (keeps : (fd : ℕ) (t : Machine d) → IsSized t → IsSized (access fd t).1) where
    on_fd-IsSized : (x : Option ℕ × Machine d) → IsSized x.1 → IsSized (on_fd d access x).1
    on_fd-IsSized (none, s) h = h
    on_fd-IsSized (some fd, s) h = keeps fd s h

    on_table-IsSized :
        (s : Machine d) (table : Option (List (Option ℕ)))
        → IsSized s
        → Sized table s.maxcores
        → IsSized (on_table d lcore access s table).1
    on_table-IsSized s none h t = h
    on_table-IsSized s (some fds) h t =
        on_fd-IsSized (msr_file_open d lcore fds s) (open-IsSized lcore fds s h t)

    with_fd-IsSized : (s : Machine d) → IsSized s → IsSized (with_fd d lcore access s).1
    unfolding with_fd
    with_fd-IsSized s h = either (ltb lcore s.maxcores)
      where
        either :
            (near : Bool)
            → IsSized (if near then on_table d lcore access s s.msr_fd else (machine_param, s)).1
        either true = on_table-IsSized s s.msr_fd h h
        either false = h

  -- After each of the four calls the table has one entry for each core, or there is no table and no
  -- core is in range, if it was so before the call.
  pub machine-IsSized :
      (granted : Bool) (max_core_id lcore reg value : ℕ) (s : Machine d)
      → IsSized s
      → IsSized (machine_init d granted max_core_id s).1
        × IsSized (machine_fini d s).1
        × IsSized (msr_read d lcore reg s).1
        × IsSized (msr_write d lcore reg value s).1
  unfolding machine_init machine_fini msr_read msr_write
  machine-IsSized granted max_core_id lcore reg value s h = (
    ground (arith, h, length-all_closed (u32 (max_core_id + 1))),
    closed s.msr_fd h,
    with_fd-IsSized lcore (read_access d reg) (λ fd t k. k) s h,
    with_fd-IsSized lcore (write_access d reg value) (λ fd t k. k) s h,
  )
    where
      closed :
          (table : Option (List (Option ℕ)))
          → Sized table s.maxcores
          → IsSized
              (elim table as (λ _. Outcome (Unit {0}) × Machine d) [
                | none ↦ (machine_error, s)
                | some fds ↦ (
                  machine_ok tt,
                  record { msr_fd = none; maxcores = 0; world = close_all d fds s.world },
                )
              ]).1
      closed none t = h
      closed (some fds) t = refl

  -- A core in range that was opened is in the table from then on: to open it again asks nothing of
  -- the driver and gives the same descriptor.
  msr_file_open_lem :
      (lcore fd : ℕ) (fds : List (Option ℕ)) (s : Machine d)
      → s.msr_fd ≡ some fds
      → lcore < length fds
      → (msr_file_open d lcore fds s).0 ≡ some fd
      → let s' = (msr_file_open d lcore fds s).1 in
        (after : List (Option ℕ)) × (s'.msr_fd ≡ some after)
        × (length after ≡ length fds)
        × (msr_file_open d lcore after s' ≡ (some fd, s'))
  msr_file_open_lem lcore fd fds s there low h = elim (Option-cases (fd_at fds lcore)) [
    | inr (old, cached) ↦
        let first = open_cached lcore old fds s cached in
        let same : some old ≡ some fd = ap (λ x. x.0) (sym first) ∙ h in
        let kept = ap (λ x. x.1) first in
        (fds, ap (λ t. t.msr_fd) kept ∙ there, refl, open_cached lcore fd fds _ (cached ∙ same))
    | inl closed ↦ elim (Option-cases (d.open_msr lcore s.world).0) [
      | inl failed ↦ absurd (ground (arith, open_failed lcore fds s closed failed, h))
      | inr (new, opened) ↦
          let first = open_new lcore new fds s closed opened in
          let same : some new ≡ some fd = ap (λ x. x.0) (sym first) ∙ h in
          (
            set_fd fds lcore new,
            ap (λ x. x.1.msr_fd) first,
            length-set_fd fds lcore new,
            open_cached lcore fd (set_fd fds lcore new) _ (fd_at-set_fd fds lcore new low ∙ same),
          )
    ]
  ]
