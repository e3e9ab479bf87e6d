-- ===== src/Alloc/MinCbm/Bounds.antt =====
-- The probing and the restoring loop of the search for the fewest mask bits (lib/allocation.c).
use multi_resource_isolation.Prelude.{
  ℕ, zero, suc, ◌+◌, ◌≤◌, ◌<◌, ◌≡◌, ◌≢◌, refl, sym, ap, subst, ◌∙◌, inl, inr, Bool, true, false,
  ◌&&◌, arith, Bool-cases, List, [], ◌∷◌, In, Option, none, some, ◌==◌, ==_iff,
}
use multi_resource_isolation.Types.{Result, ok, err, Retval, Result-cases, Action}
use multi_resource_isolation.Alloc.MinCbm.{Technology, any_holds, probe, restore}

module _ {S : Type 0} (t : Technology S) where
  -- An entry of the class with the mask stands in a table.
  abbrev pub Held : ℕ → ℕ → List t.E → Type 0
  Held class_id mask table =
      (ca : t.E) × In ca table × (t.class_of ca ≡ class_id) × (t.holds mask ca ≡ true)

  held :
      (class_id mask : ℕ) (table : List t.E)
      → any_holds t class_id mask table ≡ true
      → Held class_id mask table
  unfolding any_holds
  held class_id mask [] h = cc
  held class_id mask (ca ∷ cas) h =
      elim (Bool-cases (t.class_of ca == class_id && t.holds mask ca)) [
        | inl here ↦ (
          ca,
          inl refl,
          (==_iff (t.class_of ca) class_id).0
              (left (t.class_of ca == class_id) (t.holds mask ca) here),
          right (t.class_of ca == class_id) (t.holds mask ca) here,
        )
        | inr away ↦
            let (x, i, class, mask_there) = held class_id mask cas (rw away at h) in
            (x, inr i, class, mask_there)
      ]
    where
      left : (x y : Bool) → x && y ≡ true → x ≡ true
      left true y e = refl
      left false y e = e

      right : (x y : Bool) → x && y ≡ true → y ≡ true
      right true y e = e
      right false y e = cc

  -- The numbers of bits from `ways` on were tried in turn, up to `w`, which is the first whose mask
  -- was written and read back; `u` is the state after that.
  module _ (id class_id : ℕ) where
    abbrev pub write : ℕ → Action S (Unit {0})
    write ways = t.set id (t.entry class_id (t.mask_of ways))

    abbrev pub read_back : ℕ → Action S (List t.E)
    read_back ways = t.get id (some (t.entry class_id (t.mask_of ways)))

    pub data Tried : ℕ → S → ℕ → S → Type 0 where
      taken :
          (ways : ℕ) (s : S) (table : List t.E)
          → (write ways s).0 ≡ ok tt
          → (read_back ways (write ways s).1).0 ≡ ok table
          → Held class_id (t.mask_of ways) table
          → Tried ways s ways (read_back ways (write ways s).1).1
      not_written :
          (ways w : ℕ) (s u : S) (e : Retval)
          → (write ways s).0 ≡ err e
          → Tried (ways + 1) (write ways s).1 w u
          → Tried ways s w u
      not_held :
          (ways w : ℕ) (s u : S) (table : List t.E)
          → (write ways s).0 ≡ ok tt
          → (read_back ways (write ways s).1).0 ≡ ok table
          → any_holds t class_id (t.mask_of ways) table ≡ false
          → Tried (ways + 1) (read_back ways (write ways s).1).1 w u
          → Tried ways s w u

    -- The entries of the class in a table were set again, in order and each with success, from state
    -- `s` to state `u`.
    pub data Rewritten : List t.E → S → S → Type 0 where
      at_end : (s : S) → Rewritten [] s s
      passed :
          (ca : t.E) (cas : List t.E) (s u : S)
          → t.class_of ca == class_id ≡ false
          → Rewritten cas s u
          → Rewritten (ca ∷ cas) s u
      set_again :
          (ca : t.E) (cas : List t.E) (s u : S)
          → t.class_of ca == class_id ≡ true
          → (t.set id ca s).0 ≡ ok tt
          → Rewritten cas (t.set id ca s).1 u
          → Rewritten (ca ∷ cas) s u

    -- The restoring loop keeps the code of the search or replaces it by a failure.
    pub restore_lem :
        (cas : List t.E) (ret : Result (Option ℕ)) (s : S) {x : Option ℕ}
        → (restore t id class_id cas ret s).0 ≡ ok x
        → (ret ≡ ok x) × Rewritten cas s (restore t id class_id cas ret s).1
    unfolding restore
    restore_lem [] ret s h = (h, at_end s)
    restore_lem (ca ∷ cas) ret s {x} h = elim (Bool-cases (t.class_of ca == class_id)) [
      | inr other ↦
          let step : restore t id class_id (ca ∷ cas) ret s ≡ restore t id class_id cas ret s =
            ground (arith, other) in
          let (same, rest) = restore_lem cas ret s (ap (λ r. r.0) (sym step) ∙ h) in
          (same, passed ca cas s _ other (subst (λ r. Rewritten cas s r.1) (sym step) rest))
      | inl here ↦ elim (Result-cases (t.set id ca s).0) [
        | inl (tt, e) ↦
            let step : restore t id class_id (ca ∷ cas) ret s
                ≡ restore t id class_id cas ret (t.set id ca s).1 =
              ground (arith, here, e) in
            let (same, rest) =
              restore_lem cas ret (t.set id ca s).1 (ap (λ r. r.0) (sym step) ∙ h) in
            (
              same,
              set_again ca cas s _ here e
                  (subst (λ r. Rewritten cas (t.set id ca s).1 r.1) (sym step) rest),
            )
        | inr (q, e) ↦ absurd (ground (arith, here, e, h))
      ]
    ]

    pub probe_lem :
        (ways n : ℕ) (ret : Result (Option ℕ)) (s : S) (w : ℕ)
        → (ret ≢ ok (some w))
        → (probe t id class_id ways n ret s).0 ≡ ok (some w)
        → (ways ≤ w) × (w < ways + n) × Tried ways s w (probe t id class_id ways n ret s).1
    unfolding probe
    probe_lem ways zero ret s w fresh h = absurd (fresh h)
    probe_lem ways (suc n) ret s w fresh h =
        let seen = read_back ways (write ways s).1 in
        elim (Result-cases (write ways s).0) [
          | inr (q, e) ↦
              let step : probe t id class_id ways (suc n) ret s
                  ≡ probe t id class_id (ways + 1) n (err q) (write ways s).1 =
                ground (arith, e) in
              let (low, high, rest) =
                probe_lem (ways + 1) n (err q) (write ways s).1 w (λ d. cc)
                  (ap (λ r. r.0) (sym step) ∙ h) in
              (
                omega arith,
                omega arith,
                not_written ways w s _ q e
                    (subst (λ r. Tried (ways + 1) (write ways s).1 w r.1) (sym step) rest),
              )
          | inl (tt, e) ↦ elim (Result-cases seen.0) [
            | inr (q, f) ↦ absurd (ground (arith, e, f, h))
            | inl (table, f) ↦ elim (Bool-cases (any_holds t class_id (t.mask_of ways) table)) [
              | inl there ↦
                  let step : probe t id class_id ways (suc n) ret s ≡ (ok (some ways), seen.1) =
                    ground (arith, e, f, there) in
                  let same : ways ≡ w = ground (arith, ap (λ r. r.0) (sym step) ∙ h) in
                  (
                    omega arith,
                    omega arith,
                    subst (λ r. Tried ways s w r.1) (sym step)
                        (subst (λ v. Tried ways s v seen.1) same
                          (taken ways s table e f (held class_id (t.mask_of ways) table there))),
                  )
              | inr away ↦
                  let step : probe t id class_id ways (suc n) ret s
                      ≡ probe t id class_id (ways + 1) n (ok none) seen.1 =
                    ground (arith, e, f, away) in
                  let (low, high, rest) =
                    probe_lem (ways + 1) n (ok none) seen.1 w (λ d. cc)
                      (ap (λ r. r.0) (sym step) ∙ h) in
                  (
                    omega arith,
                    omega arith,
                    not_held ways w s _ table e f away
                        (subst (λ r. Tried (ways + 1) seen.1 w r.1) (sym step) rest),
                  )
            ]
          ]
        ]
