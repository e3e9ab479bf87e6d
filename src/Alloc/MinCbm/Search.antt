-- ===== src/Alloc/MinCbm/Search.antt =====
-- What `hw_l3ca_get_min_cbm_bits` of lib/allocation.c has done when it returns a number.
use multi_resource_isolation.Prelude.{
  ℕ, zero, suc, ◌+◌, ◌-◌, ◌^◌, ◌≤◌, ◌<◌, ◌≡◌, sym, ap, subst, ◌∙◌, inl, inr, Bool, true, arith,
  Bool-cases, List, [], ◌∷◌, Option, none, some, length,
}
use multi_resource_isolation.Types.{Retval, Result, ok, err, Result-cases, lift, ◌>>=◌}
use multi_resource_isolation.Types.Bind.{ok_of_bind}
use multi_resource_isolation.Msr.{Msr}
use multi_resource_isolation.Cpu.{get_sockets}
use multi_resource_isolation.Cap.{CapL3ca, get_type, as_l3ca, l3ca_type}
use multi_resource_isolation.Alloc.{Platform}
use multi_resource_isolation.Alloc.L2.{or_resource}
use multi_resource_isolation.Alloc.L3.{L3ca}
use multi_resource_isolation.Alloc.MinCbm.{
  Technology, find_free, probe, restore, search_from, search_on, l3_technology, is_resource,
  hw_l3ca_get_min_cbm_bits,
}
use multi_resource_isolation.Alloc.MinCbm.Bounds.{Tried, Rewritten, restore_lem, probe_lem}

module _ {S : Type 0} (t : Technology S) where
  -- The entities from a number on were asked in turn for an unused class, up to the first that had
  -- one: that entity, its class and the state after it.
  pub data Looked : ℕ → S → ℕ → ℕ → S → Type 0 where
    free :
        (id class_id : ℕ) (s : S)
        → (t.unused id s).0 ≡ ok class_id
        → Looked id s id class_id (t.unused id s).1
    busy :
        (id i class_id : ℕ) (s u : S) (e : Retval)
        → (t.unused id s).0 ≡ err e
        → is_resource e ≡ true
        → Looked (id + 1) (t.unused id s).1 i class_id u
        → Looked id s i class_id u

  -- What a search that returned `w` did on its way from state `s` to state `u`: it took the first
  -- class that was unused, read the table of its entity, tried the numbers of bits from 1 up to `w`
  -- on the class, and set the entries that the class had in the table again.
  abbrev pub Searched : S → ℕ → S → Type 0
  Searched s w u =
      (id : ℕ) × (class_id : ℕ) × (before : S) × (config : List t.E) × (probed : S) × Looked 0 s id
        class_id before
      × ((t.get id none before).0 ≡ ok config)
      × Tried t id class_id 1 (t.get id none before).1 w probed
      × Rewritten t id class_id config probed u

  find_free_lem :
      (id n : ℕ) (s : S) (found : ℕ × ℕ)
      → (find_free t id n s).0 ≡ ok found
      → Looked id s found.0 found.1 (find_free t id n s).1
  unfolding find_free
  find_free_lem id zero s found h = cc
  find_free_lem id (suc n) s found h = elim (Result-cases (t.unused id s).0) [
    | inl (class_id, e) ↦
        let step : find_free t id (suc n) s ≡ (ok (id, class_id), (t.unused id s).1) =
          ground (arith, e) in
        let same : (id, class_id) ≡ found = ground (arith, ap (λ r. r.0) (sym step) ∙ h) in
        subst (λ r. Looked id s found.0 found.1 r.1) (sym step)
          (subst (λ v. Looked id s v.0 v.1 (t.unused id s).1) same (free id class_id s e))
    | inr (q, e) ↦ elim (Bool-cases (is_resource q)) [
      | inr other ↦ absurd (ground (arith, e, other, h))
      | inl more ↦
          let step : find_free t id (suc n) s ≡ find_free t (id + 1) n (t.unused id s).1 =
            ground (arith, e, more) in
          subst (λ r. Looked id s found.0 found.1 r.1) (sym step)
            (busy id found.0 found.1 s _ q e more
              (find_free_lem (id + 1) n (t.unused id s).1 found (ap (λ r. r.0) (sym step) ∙ h)))
    ]
  ]

  -- From the list of entities on.
  search_from_lem :
      (num_ways count : ℕ) (s : S) (w : ℕ)
      → (search_from t num_ways count s).0 ≡ ok (some w)
      → (1 ≤ w) × (w ≤ num_ways) × Searched s w (search_from t num_ways count s).1
  unfolding search_from
  search_from_lem num_ways count s w h =
      let last_steps = λ (found : ℕ × ℕ) (config : List t.E) (s' : S).
        restore t found.0 found.1 config (probe t found.0 found.1 1 num_ways (ok none) s').0
          (probe t found.0 found.1 1 num_ways (ok none) s').1 in
      let (found, free_there, on) =
        ok_of_bind (find_free t 0 count)
          (λ found. t.get found.0 none >>= λ config. last_steps found config) s h in
      let s' = (find_free t 0 count s).1 in
      let (config, read, next) =
        ok_of_bind (t.get found.0 none) (last_steps found) s' (ap (λ r. r.0) (sym on) ∙ h) in
      let s'' = (t.get found.0 none s').1 in
      let (same, again) =
        restore_lem t found.0 found.1 config (probe t found.0 found.1 1 num_ways (ok none) s'').0
          (probe t found.0 found.1 1 num_ways (ok none) s'').1
          (ap (λ r. r.0) (sym (on ∙ next)) ∙ h) in
      let (low, high, tried) =
        probe_lem t found.0 found.1 1 num_ways (ok none) s'' w (λ e. cc) same in
      (
        low,
        omega arith,
        subst (λ r. Searched s w r.1) (sym (on ∙ next))
            (
              found.0,
              found.1,
              s',
              config,
              (probe t found.0 found.1 1 num_ways (ok none) s'').1,
              find_free_lem 0 count s found free_there,
              read,
              tried,
              again,
            ),
      )

  search_on_lem :
      (num_ways : ℕ) (ids : Option (List ℕ)) (s : S) (w : ℕ)
      → (search_on t num_ways ids s).0 ≡ ok (some w)
      → (1 ≤ w) × (w ≤ num_ways) × Searched s w (search_on t num_ways ids s).1
  search_on_lem num_ways none s w h = cc
  search_on_lem num_ways (some []) s w h = cc
  search_on_lem num_ways (some (id ∷ ids)) s w h =
      search_from_lem num_ways (length (id ∷ ids)) s w h

-- The capability that `or_resource` lets through is the one it was given.
or_resource_ok : {A : Type 0} (r : Result A) (a : A) → or_resource r ≡ ok a → r ≡ ok a
or_resource_ok (ok b) a e = e
or_resource_ok (err e) a h = cc

-- A number of bits `w` that the L3 search returns is at least 1 and at most the number of ways of
-- the L3 capability, and the search did what `Searched` says: it took the first unused class from
-- socket 0 on; for each number of bits below `w` the write of the mask failed or the mask was not
-- read back for the class; the mask of `w` bits was written and read back for it; and then the
-- entries that the table had for the class before were set again, each with success. The mask of `i`
-- bits is `2 ^ i - 1` for each `i` below 31.
pub hw_l3ca_get_min_cbm_bits-Searched :
    (m : Msr) (p : Platform) (granted : Bool) (first : L3ca) (stack : List L3ca) (s : m.State)
    (w i : ℕ)
    → (hw_l3ca_get_min_cbm_bits m p granted first stack s).0 ≡ ok (some w)
    → (i < 31)
    → (l3 : CapL3ca) × (as_l3ca (get_type p.interface p.cap l3ca_type) ≡ ok l3)
      × (1 ≤ w)
      × (w ≤ l3.num_ways)
      × Searched
          (l3_technology m p first stack)
          s
          w
          (hw_l3ca_get_min_cbm_bits m p granted first stack s).1
      × ((l3_technology m p first stack).mask_of i ≡ 2 ^ i - 1)
unfolding hw_l3ca_get_min_cbm_bits
hw_l3ca_get_min_cbm_bits-Searched m p granted first stack s w i h small =
    let cap_of = or_resource (as_l3ca (get_type p.interface p.cap l3ca_type)) in
    let t = l3_technology m p first stack in
    let search = λ (l3 : CapL3ca). search_on t l3.num_ways (get_sockets granted p.cpu) in
    let (l3, there, on) = ok_of_bind (lift cap_of) search s h in
    let (low, high, searched) =
      search_on_lem t l3.num_ways (get_sockets granted p.cpu) s w (ap (λ r. r.0) (sym on) ∙ h) in
    (
      l3,
      or_resource_ok _ l3 there,
      low,
      high,
      subst (λ r. Searched t s w r.1) (sym on) searched,
      ground (arith, small),
    )
