-- ===== src/Api/Mon/Groups.antt =====
-- A group that `pqos_mon_start` has started.
use Prim.Native.Nat.{min}
use multi_resource_isolation.Prelude.{
  arith, ◌%◌, ◌/◌, ◌^◌, ◌<◌, ◌≢◌, bit_and, bit_and-low, bit_and-ones, bit_and-shifted, false≢true,
  eq→==, ℕ, ◌≡◌, refl, sym, subst, ap, ◌∙◌, Bool, true, false, not, ◌||◌, ◌==◌, List, ◌∷◌, Option,
}
use multi_resource_isolation.Types.{Result, ok, err, Action}
use multi_resource_isolation.Cap.{Interface, msr, os}
use multi_resource_isolation.Mon.{MonData}
use multi_resource_isolation.Api.{Library, Event, locked, entered, unlocked, under_lock, refuse_if}
use multi_resource_isolation.Api.Atomic.{library}
use multi_resource_isolation.Api.Tables.{no_entries, entries_of}
use multi_resource_isolation.Api.Mon.{
  MonBackends, bad_events, select, group_of, mark_valid, marked, pqos_mon_start,
}

-- What a success does: the library was initialised, the group is valid, the lock was taken, the
-- interface entered and the lock dropped.
pub record Served {S : Type 0} (l k : Library (MonData × S)) : Type 0 where
  pub init_done : l.init_done ≡ true
  pub valid : (group_of k).valid ≡ true
  pub events : k.events ≡ unlocked ∷ entered ∷ locked ∷ l.events

past_refusal :
    {T A : Type 0} (bad : Bool) (body : Action (Library T) A) (l : Library T) {a : A}
    → (refuse_if bad body l).0 ≡ ok a
    → (bad ≡ false) × (refuse_if bad body l ≡ body l)
past_refusal true body l h = cc
past_refusal false body l h = (refl, refl)

module _ {S : Type 0} where
  mark_lem :
      (r : Result (Unit {0})) (l : Library (MonData × S))
      → (mark_valid r l).0 ≡ ok tt
      → ((group_of (mark_valid r l).1).valid ≡ true) × ((mark_valid r l).1.events ≡ l.events)
  mark_lem (ok u) l h = (refl, refl)
  mark_lem (err e) l h = cc

  marked_lem :
      (hw other : Action (MonData × S) (Unit {0})) (done : Bool) (i : Interface) (es : List Event)
      (st : MonData × S)
      → (under_lock (marked (select hw other)) (library done i es st)).0 ≡ ok tt
      → Served
          (library done i es st)
          (under_lock (marked (select hw other)) (library done i es st)).1
  unfolding under_lock
  marked_lem hw other false i es st h = cc
  marked_lem hw other true msr es st h =
      let k = library true msr (entered ∷ locked ∷ es) (hw st).1 in
      let (valid, events) = mark_lem (hw st).0 k h in
      record { init_done = refl; valid = valid; events = ap (λ xs. unlocked ∷ xs) events }
  marked_lem hw other true os es st h =
      let k = library true os (entered ∷ locked ∷ es) (other st).1 in
      let (valid, events) = mark_lem (other st).0 k h in
      record { init_done = refl; valid = valid; events = ap (λ xs. unlocked ∷ xs) events }

-- A bit of a mask that finds nothing in a number.
low_one : (a b : ℕ) → b % 2 ≡ 1 → bit_and a b ≡ 0 → (a % 2 ≡ 0) × (bit_and (a / 2) (b / 2) ≡ 0)
low_one a b odd none_there =
    let split = bit_and-low a b in
    let least : min (a % 2) 1 ≡ a % 2 = ground arith in
    let bits = ap (λ t. min (a % 2) t) odd ∙ least in
    (omega (arith, split, bits), omega (arith, split, bits))

-- A number of 32 bits with none of the bits that the guards test is 0.
no_event :
    (event : ℕ)
    → event < 2 ^ 32
    → bit_and event 15 ≡ 0
    → bit_and event 0xC000 ≡ 0
    → bit_and event 0xFFFF3FF0 ≡ 0
    → event ≡ 0
no_event event word rdt perf other =
    let low = bit_and-ones 4 event in
    let mid = bit_and-shifted 14 event 3 in
    let two = bit_and-ones 2 (event / 2 ^ 14) in
    let high = bit_and-shifted 4 event 0xFFFF3FF in
    let a0 = event / 2 ^ 4 in
    let (z0, e1) = low_one a0 0xFFFF3FF refl (omega (arith, high, other)) in
    let a1 = a0 / 2 in
    let (z1, e2) = low_one a1 0x7FFF9FF refl e1 in
    let a2 = a1 / 2 in
    let (z2, e3) = low_one a2 0x3FFFCFF refl e2 in
    let a3 = a2 / 2 in
    let (z3, e4) = low_one a3 0x1FFFE7F refl e3 in
    let a4 = a3 / 2 in
    let (z4, e5) = low_one a4 0xFFFF3F refl e4 in
    let a5 = a4 / 2 in
    let (z5, e6) = low_one a5 0x7FFF9F refl e5 in
    let a6 = a5 / 2 in
    let (z6, e7) = low_one a6 0x3FFFCF refl e6 in
    let a7 = a6 / 2 in
    let (z7, e8) = low_one a7 0x1FFFE7 refl e7 in
    let a8 = a7 / 2 in
    let (z8, e9) = low_one a8 0xFFFF3 refl e8 in
    let a9 = a8 / 2 in
    let (z9, e10) = low_one a9 0x7FFF9 refl e9 in
    let rest = bit_and-shifted 2 (a9 / 2) 0xFFFF in
    let top = bit_and-ones 16 (a9 / 2 / 2 ^ 2) in
    omega (arith, rdt, perf, low, mid, two, rest, top, e10, z0, z1, z2, z3, z4, z5, z6, z7, z8, z9)

-- What the guards on the events let through.
good_events :
    (event : ℕ)
    → event < 2 ^ 32
    → event ≢ 0
    → bad_events event ≡ false
    → (bit_and event 15 ≢ 0) × (bit_and event 0xFFFF3FF0 ≡ 0)
good_events event word some_event good =
    let outside : bit_and event 0xFFFF3FF0 ≡ 0 = ground arith in
    (
      λ rdt.
          let perf : bit_and event 0xC000 ≡ 0 = ground arith in
          some_event (no_event event word rdt perf outside),
      outside,
    )

module _ {S : Type 0} (b : MonBackends S) where
  -- A success of `pqos_mon_start` on a mask of 32 bits: the group was not valid, the mask has one of
  -- the four events of RDT at least and no bit but theirs and those of the two counters, the library
  -- was initialised, and the group is valid now; the lock was taken, the interface entered once, and
  -- the lock dropped.
  pub pqos_mon_start-Served :
      (cores : Option (List ℕ)) (event context : ℕ) (given : Bool) (l : Library (MonData × S))
      → event < 2 ^ 32
      → (pqos_mon_start b cores event context given l).0 ≡ ok tt
      → ((group_of l).valid ≡ false)
        × (bit_and event 15 ≢ 0)
        × (bit_and event 0xFFFF3FF0 ≡ 0)
        × Served l (pqos_mon_start b cores event context given l).1
  unfolding pqos_mon_start
  pqos_mon_start-Served cores event context given l word h =
      let work = under_lock (
        marked (
          select (b.hw_start (entries_of cores) event context)
            (b.os_start (entries_of cores) event context))) in
      let first = (not given || no_entries cores) || event == 0 in
      let later = (group_of l).valid || bad_events event in
      let (fine, same) = past_refusal (first || later) work l h in
      let served =
        marked_lem (b.hw_start (entries_of cores) event context)
          (b.os_start (entries_of cores) event context) l.init_done l.interface l.events l.state
          (ap (λ t. t.0) (sym same) ∙ h) in
      let (not_valid, good) =
        neither (group_of l).valid (bad_events event) (second first later fine) in
      let (no_list, not_zero) =
        neither (not given || no_entries cores) (event == 0) (head first later fine) in
      let (rdt, outside) =
        good_events event word (λ z. false≢true (sym not_zero ∙ eq→== event 0 z)) good in
      (not_valid, rdt, outside, subst (λ t. Served l t.1) (sym same) served)
    where
      head : (x y : Bool) → x || y ≡ false → x ≡ false
      head true y e = cc
      head false y e = refl

      second : (x y : Bool) → x || y ≡ false → y ≡ false
      second true y e = cc
      second false y e = e

      neither : (x y : Bool) → x || y ≡ false → (x ≡ false) × (y ≡ false)
      neither true y e = cc
      neither false y e = (refl, e)
