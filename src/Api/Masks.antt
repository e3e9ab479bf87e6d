-- ===== src/Api/Masks.antt =====
-- Which masks the API lets through.
use multi_resource_isolation.Prelude.{
  ℕ, ◌^◌, ◌<◌, ◌≡◌, refl, ◌↔◌, Bool, true, false, ◌&&◌, if◌then◌else◌, List, [], ◌∷◌, some, All,
  Bool-cases, inl, inr,
}
use multi_resource_isolation.Types.{err, Retval, fail}
use multi_resource_isolation.Cap.{Interface}
use multi_resource_isolation.Mask.{is_contiguous}
use multi_resource_isolation.Mask.Run.{run, is_contiguous_iff}
use multi_resource_isolation.Alloc.L3.{L3ca}
use multi_resource_isolation.Api.{Backends, Library, dispatch, under_lock, Event, locked, unlocked}
use multi_resource_isolation.Api.Atomic.{library}
use multi_resource_isolation.Api.Tables.{all_l3_contiguous, l3_contiguous, pqos_l3ca_set}

-- One run of one or more ones.
abbrev pub IsRun : ℕ → Type 0
IsRun mask = (start : ℕ) × (length : ℕ) × (mask ≡ run start length)

-- The masks of an entry that the code reads: 64-bit words, and runs.
abbrev pub HasWords : L3ca → Type 0
HasWords ca = (ca.data_mask < 2 ^ 64) × (ca.code_mask < 2 ^ 64)

abbrev pub HasRuns : L3ca → Type 0
HasRuns ca = IsRun ca.data_mask × (ca.cdp ≡ true → IsRun ca.code_mask)

both : (x y : Bool) → (x && y) ≡ true → (x ≡ true) × (y ≡ true)
both true true e = (refl, refl)
both true false e = cc
both false y e = cc

l3_contiguous_iff : (ca : L3ca) → HasWords ca → (l3_contiguous ca ≡ true) ↔ HasRuns ca
l3_contiguous_iff ca w = by_cdp ca.cdp
  where
    data_iff : (is_contiguous ca.data_mask ≡ true) ↔ IsRun ca.data_mask
    data_iff = is_contiguous_iff ca.data_mask w.0

    code_iff : (is_contiguous ca.code_mask ≡ true) ↔ IsRun ca.code_mask
    code_iff = is_contiguous_iff ca.code_mask w.1

    by_cdp :
        (cdp : Bool)
        → ((if cdp
              then is_contiguous ca.data_mask && is_contiguous ca.code_mask
              else is_contiguous ca.data_mask)
            ≡ true)
          ↔ (IsRun ca.data_mask × (cdp ≡ true → IsRun ca.code_mask))
    by_cdp true = (
      λ e.
          let (d, c) = both (is_contiguous ca.data_mask) (is_contiguous ca.code_mask) e in
          (data_iff.0 d, λ t. code_iff.0 c),
      λ h. rw (data_iff.1 h.0) (code_iff.1 (h.1 refl)),
    )
    by_cdp false = (λ e. (data_iff.0 e, λ t. cc), λ h. data_iff.1 h.0)

pub all_l3_contiguous_iff :
    (cas : List L3ca) → All HasWords cas → (all_l3_contiguous cas ≡ true) ↔ All HasRuns cas
unfolding all_l3_contiguous
all_l3_contiguous_iff [] w = (λ e. tt, λ h. refl)
all_l3_contiguous_iff (ca ∷ cas) w =
    let first = l3_contiguous_iff ca w.0 in
    let rest = all_l3_contiguous_iff cas w.1 in
    (
      λ e. let (a, b) = each (l3_contiguous ca) (all_l3_contiguous cas) e in (first.0 a, rest.0 b),
      λ h. rw (first.1 h.0) (rest.1 h.1),
    )
  where
    each : (x y : Bool) → (if x then y else false) ≡ true → (x ≡ true) × (y ≡ true)
    each true y e = (refl, e)
    each false y e = cc

refuse :
    {S : Type 0} (done : Bool) (i : Interface) (es : List Event) (st : S)
    → done ≡ true
    → under_lock (fail {A = Unit {0}} Retval.param) (library done i es st)
      ≡ (err Retval.param, library done i (unlocked ∷ locked ∷ es) st)
unfolding under_lock
refuse true i es st e = refl
refuse false i es st e = cc

module _ {S : Type 0} (b : Backends S) (socket : ℕ) (ca : L3ca) (cas : List L3ca) where
  -- On an initialised library, a table of 64-bit masks reaches the interface exactly when each of its
  -- masks, both of an entry for CDP, is one run of ones; otherwise the call is refused with PARAM,
  -- the lock is free again and the state is as it was.
  pub pqos_l3ca_set-runs :
      (l : Library S)
      → l.init_done ≡ true
      → All HasWords (ca ∷ cas)
      → (All HasRuns (ca ∷ cas)
          → pqos_l3ca_set b socket (some (ca ∷ cas)) l
            ≡ under_lock (dispatch b (λ i. i.l3ca_set socket (ca ∷ cas))) l)
        × (¬ All HasRuns (ca ∷ cas)
            → pqos_l3ca_set b socket (some (ca ∷ cas)) l
              ≡ (err Retval.param, record l { events = unlocked ∷ locked ∷ l.events }))
  unfolding pqos_l3ca_set
  pqos_l3ca_set-runs l ready w =
      let fine = all_l3_contiguous_iff (ca ∷ cas) w in
      (
        λ h. rw (fine.1 h) refl,
        λ h. elim (Bool-cases (all_l3_contiguous (ca ∷ cas))) [
          | inl e ↦ absurd (h (fine.0 e))
          | inr e ↦ rw e (refuse l.init_done l.interface l.events l.state ready)
        ],
      )
