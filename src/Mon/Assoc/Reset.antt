-- ===== src/Mon/Assoc/Reset.antt =====
-- The loop that takes cores back to RMID 0, and `hw_mon_reset`.
use multi_resource_isolation.Prelude.{ℕ, ◌≡◌, refl, ◌∙◌, arith, true, if◌then◌else◌, List, [], ◌∷◌}
use multi_resource_isolation.Types.{Result, ok, err}
use multi_resource_isolation.Msr.{Msr, Registers}
use multi_resource_isolation.Cpu.{listed}
use multi_resource_isolation.Alloc.{Platform}
use multi_resource_isolation.Alloc.Assoc.Field.{class_in, PerCore}
use multi_resource_isolation.Mon.Assoc.{keep_last, mon_assoc_set, zero_rmids, lcores, hw_mon_reset}
use multi_resource_isolation.Mon.Assoc.Field.{rmid_in, mon_assoc_set_lem}

abbrev Codes : Type 0
Codes = Result (Unit {0}) → Result (Unit {0}) → Result (Unit {0})

-- A failure is never forgotten.
abbrev pub Strict : Codes → Type 0
Strict keep = (r x : Result (Unit {0})) → keep r x ≡ ok tt → (r ≡ ok tt) × (x ≡ ok tt)

keep_last-Strict : Strict keep_last
keep_last-Strict r (ok tt) h = (h, refl)
keep_last-Strict r (err e) h = cc

module _ (m : Msr) (g : Registers m) (own : PerCore g) (keep : Codes) (strict : Strict keep) where
  -- A success of the loop: every core listed is at RMID 0, the others are as before.
  pub zero_rmids_lem :
      (cores : List ℕ) (r : Result (Unit {0})) (s : m.State) (c : ℕ)
      → (zero_rmids m keep cores r s).0 ≡ ok tt
      → let s' = (zero_rmids m keep cores r s).1 in
        (r ≡ ok tt)
        × (rmid_in g s' c ≡ (if listed c cores then 0 else rmid_in g s c))
        × (class_in g s' c ≡ class_in g s c)
  unfolding zero_rmids listed
  zero_rmids_lem [] r s c h = (h, refl, refl)
  zero_rmids_lem (lcore ∷ cores) r s c h =
      let (x, s') = mon_assoc_set m lcore 0 s in
      let (kept, later, classes) = zero_rmids_lem cores (keep r x) s' c h in
      let (before, done) = strict r x kept in
      let (rmid, class) = mon_assoc_set_lem m g lcore 0 s c own done in
      (before, later ∙ ground (arith, rmid), classes ∙ class)

module _ (m : Msr) (g : Registers m) (own : PerCore g) where
  -- A success of `hw_mon_reset` means that every core of the table is back at RMID 0; the other
  -- cores keep their RMID, and every core its class.
  pub hw_mon_reset_lem :
      (p : Platform) (s : m.State) (c : ℕ)
      → (hw_mon_reset m p true s).0 ≡ ok tt
      → let s' = (hw_mon_reset m p true s).1 in
        (rmid_in g s' c ≡ (if listed c (lcores p.cpu.cores) then 0 else rmid_in g s c))
        × (class_in g s' c ≡ class_in g s c)
  unfolding hw_mon_reset
  hw_mon_reset_lem p s c e =
      let (start, rmid, class) =
        zero_rmids_lem m g own keep_last keep_last-Strict (lcores p.cpu.cores) (ok tt) s c e in
      (rmid, class)
