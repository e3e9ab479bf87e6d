-- ===== src/Os/Groups.antt =====
-- lib/os_allocation.c: the groups that the set-up leaves behind.
use multi_resource_isolation.Prelude.{
  ℕ, zero, suc, ◌+◌, ◌-◌, ◌≤◌, ◌<◌, ◌≡◌, refl, sym, ap, ◌∙◌, arith, Bool, true, false, ◌==◌,
  if◌then◌else◌, Bool-cases, inl, inr, subst,
}
use multi_resource_isolation.Types.{Retval, Result, ok, err, Action, lift, ◌>>=◌}
use multi_resource_isolation.Types.Bind.{ok_next, ok_of_bind}
use multi_resource_isolation.Cap.{Interface, Cap}
use multi_resource_isolation.Rctl.Groups.{get_grps_num}
use multi_resource_isolation.Os.Setup.{System, checked, make_groups, os_alloc_prep}

module _ {S : Type 0} (sys : System S) where
  -- What `mkdir` documents: where it succeeds, the directory is there, and it removes none.
  pub record Makes : Type 0 where
    pub made :
        (g : ℕ) (s : S) → (sys.mkdir g s).0 ≡ true → sys.group_exists g (sys.mkdir g s).1 ≡ true
    pub kept :
        (g d : ℕ) (s : S)
        → sys.group_exists d s ≡ true
        → sys.group_exists d (sys.mkdir g s).1 ≡ true

  granted :
      (b : Bool) (e : Retval)
      → (let r : Result (Unit {0}) = if b then ok tt else err e in r) ≡ ok tt
      → b ≡ true
  granted true e h = refl
  granted false e h = cc

  module _ (i : Interface) (law : Makes) where
    -- The groups that were there and those of the loop are there.
    record Made (n class_id : ℕ) (s t : S) : Type 0 where
      old : (d : ℕ) → sys.group_exists d s ≡ true → sys.group_exists d t ≡ true
      new : (d : ℕ) → class_id ≤ d → d < class_id + n → sys.group_exists d t ≡ true

    one_more :
        (n class_id : ℕ) (s s' t : S)
        → sys.group_exists class_id s' ≡ true
        → ((d : ℕ) → sys.group_exists d s ≡ true → sys.group_exists d s' ≡ true)
        → Made n (class_id + 1) s' t
        → Made (suc n) class_id s t
    one_more n class_id s s' t here keep m = record {
      old = λ d e. m.old d (keep d e);
      new = λ d a b. elim (Bool-cases (class_id == d)) [
        | inl g ↦ m.old d (subst (λ (x : ℕ). sys.group_exists x s' ≡ true) (ground arith) here)
        | inr g ↦ m.new d (ground arith) (omega arith)
      ];
    }

    make_groups-Made :
        (n class_id : ℕ) (s : S)
        → (make_groups sys i n class_id s).0 ≡ ok tt
        → Made n class_id s (make_groups sys i n class_id s).1
    unfolding make_groups
    make_groups-Made zero class_id s h = record {
      old = λ d e. e;
      new = λ d a b. absurd (omega arith);
    }
    make_groups-Made (suc n) class_id s h =
        let step : Action S (Unit {0}) = checked sys i Retval.busy (sys.mkdir class_id) in
        let rest : Unit {0} → Action S (Unit {0}) = λ u. make_groups sys i n (class_id + 1) in
        let branch : Bool → Result (Unit {0}) × S =
          λ b. if b then make_groups sys i n (class_id + 1) s else (step >>= rest) s in
        elim (Bool-cases (sys.group_exists class_id s)) [
          | inl g ↦
              subst (λ r. Made (suc n) class_id s r.1) (ap branch (sym g))
                (one_more n class_id s s (branch true).1 g (λ d e. e)
                  (make_groups-Made n (class_id + 1) s (ap (λ b. (branch b).0) (sym g) ∙ h)))
          | inr g ↦
              let h' : ((step >>= rest) s).0 ≡ ok tt = ap (λ b. (branch b).0) (sym g) ∙ h in
              let (u, e, h'') = ok_next step rest s h' in
              let done = granted (sys.mkdir class_id s).0 Retval.busy e in
              let s' = (sys.mkdir class_id s).1 in
              let (u', e', q) = ok_of_bind step rest s h' in
              subst (λ r. Made (suc n) class_id s r.1) (sym q ∙ ap branch (sym g))
                (one_more n class_id s s' (rest u' s').1 (law.made class_id s done)
                  (λ d x. law.kept class_id d s x)
                  (make_groups-Made n (class_id + 1) s' (ap (λ r. r.0) (sym q) ∙ h')))
        ]

    -- Where `mkdir` makes the directory it is asked for and removes none: when the set-up succeeds,
    -- the directory of every class from 1 up to the number of groups is there.
    pub os_alloc_prep_lem :
        (cap : Cap) (s : S)
        → (os_alloc_prep sys i cap s).0 ≡ ok tt
        → (grps : ℕ) × (get_grps_num i cap ≡ ok grps)
          × ((d : ℕ) → 1 ≤ d → d < grps → sys.group_exists d (os_alloc_prep sys i cap s).1 ≡ true)
    unfolding os_alloc_prep
    os_alloc_prep_lem cap s h =
        let rest : ℕ → Action S (Unit {0}) = λ num_grps. make_groups sys i (num_grps - 1) 1 in
        let (grps, e, q) = ok_of_bind (lift (get_grps_num i cap)) rest s h in
        let m = make_groups-Made (grps - 1) 1 s (sym (ap (λ r. r.0) q) ∙ h) in
        (grps, e, λ d a b. ap (λ r. sys.group_exists d r.1) q ∙ m.new d a (omega arith))
