-- ===== src/Mon/Start/Associate.antt =====
-- The last loop of `hw_mon_start`: which RMID a core gets.
use multi_resource_isolation.Prelude.{
  ℕ, ◌^◌, ◌%◌, ◌≡◌, refl, sym, ap, ◌∙◌, Bool, true, false, arith, ◌==◌, ==_iff, if◌then◌else◌, List,
  [], ◌∷◌, Bool-cases, inl, inr, All, false≢true,
}
use multi_resource_isolation.Types.{ok, lift, ◌>>◌}
use multi_resource_isolation.Types.Bind.{ok_next, bind_of_ok, ok_same}
use multi_resource_isolation.Msr.{Msr, Registers}
use multi_resource_isolation.Cpu.{listed}
use multi_resource_isolation.Alloc.Assoc.Field.{class_in, PerCore}
use multi_resource_isolation.Mon.{PollCtx}
use multi_resource_isolation.Mon.Assoc.{mon_assoc_set}
use multi_resource_isolation.Mon.Assoc.Field.{rmid_in, mon_assoc_set_lem}
use multi_resource_isolation.Mon.Start.{rmid_for, associate}
use multi_resource_isolation.Mon.Start.Plan.{firsts}

-- The first context of a cluster.
pub rmid_for_lem :
    (P : PollCtx → Type 0) (cluster : ℕ) (ctxs : List PollCtx) {v : ℕ}
    → rmid_for cluster ctxs ≡ ok v
    → All P ctxs
    → (x : PollCtx) × P x × (x.cluster ≡ cluster) × (x.rmid ≡ v)
unfolding rmid_for
rmid_for_lem P cluster [] h all = cc
rmid_for_lem P cluster (x ∷ xs) {v} h all = elim (Bool-cases (x.cluster == cluster)) [
  | inl e ↦
      let found : ok x.rmid ≡ ok v = rw e at h in
      (x, all.0, (==_iff x.cluster cluster).0 e, ok_same found)
  | inr e ↦ rmid_for_lem P cluster xs {v = v} (rw e at h) all.1
]

-- A core with its cluster, from the pairs.
pub pair_of :
    (P : ℕ × ℕ → Type 0) (c : ℕ) (pairs : List (ℕ × ℕ))
    → listed c (firsts pairs) ≡ true
    → All P pairs
    → (x : ℕ × ℕ) × P x × (x.0 ≡ c)
unfolding listed
pair_of P c [] h all = absurd (false≢true h)
pair_of P c ((d, k) ∷ rest) h all = elim (Bool-cases (c == d)) [
  | inl e ↦ let x : ℕ × ℕ = (d, k) in (x, all.0, sym ((==_iff c d).0 e))
  | inr e ↦ pair_of P c rest (rw e at h) all.1
]

pub All-zip :
    {A : Type 0} (P Q : A → Type 0) (xs : List A) → All P xs → All Q xs → All (λ x. P x × Q x) xs
All-zip P Q [] h k = tt
All-zip P Q (x ∷ xs) h k = ((h.0, k.0), All-zip P Q xs h.1 k.1)

pub unlisted :
    (c : ℕ) (pairs : List (ℕ × ℕ)) → listed c (firsts pairs) ≡ false → All (λ x. ¬ (x.0 ≡ c)) pairs
unfolding listed
unlisted c [] h = tt
unlisted c ((d, k) ∷ rest) h = elim (Bool-cases (c == d)) [
  | inl e ↦ absurd (let bad : true ≡ false = rw e at h in cc)
  | inr e ↦ (λ same. ground (arith, same), unlisted c rest (rw e at h))
]

-- The RMID of core `c` after core `d` was given `r` and the rest of the list `v`.
either :
    (later : Bool) (c d r v old : ℕ)
    → (c ≡ d → r ≡ v)
    → (if later then v % 2 ^ 10 else (if c == d then r % 2 ^ 10 else old))
      ≡ (if (if c == d then true else later) then v % 2 ^ 10 else old)
either true c d r v old h = ground arith
either false c d r v old h = elim (Bool-cases (c == d)) [
  | inl e ↦ rw e (ap (λ (x : ℕ). x % 2 ^ 10) (h ((==_iff c d).0 e)))
  | inr e ↦ rw e
]

module _ (m : Msr) (g : Registers m) (own : PerCore g) where
  -- What a success of the last loop does to the RMID of a core whose cluster has RMID `v`.
  pub associate_rmid :
      (pairs : List (ℕ × ℕ)) (ctxs : List PollCtx) (s : m.State) (c v : ℕ)
      → (associate m pairs ctxs s).0 ≡ ok tt
      → All (λ x. x.0 ≡ c → rmid_for x.1 ctxs ≡ ok v) pairs
      → rmid_in g (associate m pairs ctxs s).1 c
        ≡ (if listed c (firsts pairs) then v % 2 ^ 10 else rmid_in g s c)
  unfolding associate listed
  associate_rmid [] ctxs s c v h all = refl
  associate_rmid ((d, k) ∷ rest) ctxs s c v h all =
      let next = λ (r : ℕ). mon_assoc_set m d r >> associate m rest ctxs in
      let (r, chosen, h1) = ok_next (lift (rmid_for k ctxs)) next s h in
      let (u, done, h2) = ok_next (mon_assoc_set m d r) (λ w. associate m rest ctxs) s h1 in
      let s' = (mon_assoc_set m d r s).1 in
      let whole =
        bind_of_ok (lift (rmid_for k ctxs)) next s chosen
        ∙ bind_of_ok (mon_assoc_set m d r) (λ w. associate m rest ctxs) s done in
      let (set_to, class) = mon_assoc_set_lem m g d r s c own done in
      ap (λ t. rmid_in g t.1 c) whole
      ∙ associate_rmid rest ctxs s' c v h2 all.1
      ∙ ap (λ x. if listed c (firsts rest) then v % 2 ^ 10 else x) set_to
      ∙ either (listed c (firsts rest)) c d r v (rmid_in g s c)
          (λ e. ok_same (sym chosen ∙ all.0 (sym e)))

  pub associate_class :
      (pairs : List (ℕ × ℕ)) (ctxs : List PollCtx) (s : m.State) (c : ℕ)
      → (associate m pairs ctxs s).0 ≡ ok tt
      → (class_in g (associate m pairs ctxs s).1 c ≡ class_in g s c)
        × All (λ x. (v : ℕ) × (rmid_for x.1 ctxs ≡ ok v)) pairs
  unfolding associate
  associate_class [] ctxs s c h = (refl, tt)
  associate_class ((d, k) ∷ rest) ctxs s c h =
      let next = λ (r : ℕ). mon_assoc_set m d r >> associate m rest ctxs in
      let (r, chosen, h1) = ok_next (lift (rmid_for k ctxs)) next s h in
      let (u, done, h2) = ok_next (mon_assoc_set m d r) (λ w. associate m rest ctxs) s h1 in
      let s' = (mon_assoc_set m d r s).1 in
      let whole =
        bind_of_ok (lift (rmid_for k ctxs)) next s chosen
        ∙ bind_of_ok (mon_assoc_set m d r) (λ w. associate m rest ctxs) s done in
      let (class, found) = associate_class rest ctxs s' c h2 in
      (
        ap (λ t. class_in g t.1 c) whole ∙ class ∙ (mon_assoc_set_lem m g d r s c own done).1,
        ((r, chosen), found),
      )
