-- ===== src/Alloc/MinCbm.antt =====
-- `hw_l3ca_get_min_cbm_bits` and `hw_l2ca_get_min_cbm_bits` of lib/allocation.c: the fewest bits
-- that the hardware takes in a mask, found by trying them on a class that no core uses. The two
-- functions are one text but for the technology, which is a parameter here.
pub mod Bounds
pub mod Search
use multi_resource_isolation.Prelude.{
  ℕ, zero, suc, ◌+◌, ◌-◌, ◌^◌, Bool, true, false, ◌&&◌, not, ◌==◌, if◌then◌else◌, ltb, u32, List,
  [], ◌∷◌, length, Option, none, some,
}
use multi_resource_isolation.Types.{Retval, Result, ok, err, Action, pure, fail, lift, ◌>>=◌, ◌>>◌}
use multi_resource_isolation.Msr.{Msr}
use multi_resource_isolation.Cpu.{get_sockets, get_l2ids}
use multi_resource_isolation.Cap.{
  CapL3ca, CapL2ca, l3ca_type, l2ca_type, get_type, as_l3ca, as_l2ca,
}
use multi_resource_isolation.Alloc.{Platform}
use multi_resource_isolation.Alloc.L3.{L3ca, ways_mask, hw_l3ca_set, hw_l3ca_get}
use multi_resource_isolation.Alloc.L2.{L2ca, or_resource, hw_l2ca_set, hw_l2ca_get}
use multi_resource_isolation.Alloc.Assign.{get_unused_cos}

abbrev pub is_resource : Retval → Bool
is_resource Retval.resource = true
is_resource _ = false

-- `uint64_t mask = (1 << ways) - 1;`, where 1 is an `int` of 32 bits.
abbrev pub int_mask : Platform → ℕ → ℕ
int_mask p ways = if ltb ways 31 then 2 ^ ways - 1 else p.undefined.shift_int ways

-- What the search uses of a technology: table entries `E`, its set and get functions, the tests on an
-- entry, and the mask of a number of bits.
pub record Technology (S : Type 0) : Type 1 where
  pub E : Type 0
  pub class_of : E → ℕ
  pub entry : ℕ → ℕ → E
  pub holds : ℕ → E → Bool
  pub mask_of : ℕ → ℕ
  pub unused : ℕ → Action S ℕ
  pub set : ℕ → E → Action S (Unit {0})
  pub get : ℕ → Option E → Action S (List E)

module _ {S : Type 0} (t : Technology S) where
  -- The loop that looks for a free class: the index `id`, and `n` rounds left.
  unfoldable pub find_free : ℕ → ℕ → Action S (ℕ × ℕ)
  find_free id zero s = (err Retval.resource, s)
  find_free id (suc n) s =
      let (r, s') = t.unused id s in
      elim r [
        | ok class_id ↦ (ok (id, class_id), s')
        | err e ↦ elim (is_resource e) [ true ↦ find_free (id + 1) n s' | false ↦ (err e, s') ]
      ]

  -- The loop over the entries read back.
  unfoldable pub any_holds : ℕ → ℕ → List t.E → Bool
  any_holds class_id mask [] = false
  any_holds class_id mask (ca ∷ cas) =
      if t.class_of ca == class_id && t.holds mask ca then true else any_holds class_id mask cas

  -- The probing loop: `ways` and the rounds left, and `ret` as the round before left it. A round
  -- whose write fails goes on to the next. `none` is an output argument that is never written.
  unfoldable pub probe : ℕ → ℕ → ℕ → ℕ → Result (Option ℕ) → Action S (Option ℕ)
  probe id class_id ways zero ret s = (ret, s)
  probe id class_id ways (suc n) ret s =
      let (r, s') = t.set id (t.entry class_id (t.mask_of ways)) s in
      elim r [
        | err e ↦ probe id class_id (ways + 1) n (err e) s'
        | ok u ↦
            let (q, s'') = t.get id (some (t.entry class_id (t.mask_of ways))) s' in
            elim q [
              | err e ↦ (err e, s'')
              | ok table ↦ elim (any_holds class_id (t.mask_of ways) table) [
                | true ↦ (ok (some ways), s'')
                | false ↦ probe id class_id (ways + 1) n (ok none) s''
              ]
            ]
      ]

  -- The loop that restores the class; a failure replaces the code of the search.
  unfoldable pub restore : ℕ → ℕ → List t.E → Result (Option ℕ) → Action S (Option ℕ)
  restore id class_id [] ret s = (ret, s)
  restore id class_id (ca ∷ cas) ret s = elim (t.class_of ca == class_id) [
    | false ↦ restore id class_id cas ret s
    | true ↦
        let (r, s') = t.set id ca s in
        elim r [ ok u ↦ restore id class_id cas ret s' | err e ↦ (err e, s') ]
  ]

  -- From the list of entities on.
  unfoldable pub search_from : ℕ → ℕ → Action S (Option ℕ)
  search_from num_ways count = do
    found ← find_free 0 count
    config ← t.get found.0 none
    λ s.
        let (ret, s') = probe found.0 found.1 1 num_ways (ok none) s in
        restore found.0 found.1 config ret s'

  abbrev pub search_on : ℕ → Option (List ℕ) → Action S (Option ℕ)
  search_on num_ways none = fail Retval.error
  search_on num_ways (some []) = fail Retval.error
  search_on num_ways (some (id ∷ ids)) = search_from num_ways (length (id ∷ ids))

module _ (m : Msr) (p : Platform) where
  -- `stack` is what the table of PQOS_MAX_L3CA_COS entries holds before the call.
  abbrev pub l3_technology : L3ca → List L3ca → Technology m.State
  l3_technology first stack = record {
    E = L3ca;
    class_of = λ ca. ca.class_id;
    entry = λ class_id mask. record {
      class_id = class_id;
      cdp = false;
      data_mask = mask;
      code_mask = 0;
    };
    holds = λ mask ca.
        if ca.cdp then ca.data_mask == mask && ca.code_mask == mask else ways_mask ca == mask;
    mask_of = int_mask p;
    unused = λ id. get_unused_cos m p id (2 ^ 1);
    set = λ id ca. hw_l3ca_set m p id (ca ∷ []);
    get = λ id probed. hw_l3ca_get m p id (elim probed [ none ↦ first | some ca ↦ ca ] ∷ stack);
  }

  abbrev pub l2_technology : Technology m.State
  l2_technology = record {
    E = L2ca;
    class_of = λ ca. ca.class_id;
    entry = λ class_id mask. record { class_id = class_id; ways_mask = u32 mask };
    holds = λ mask ca. ca.ways_mask == mask;
    mask_of = int_mask p;
    unused = λ id. get_unused_cos m p id (2 ^ 2);
    set = λ id ca. hw_l2ca_set m p id (ca ∷ []);
    get = λ id probed. hw_l2ca_get m p id 16;
  }

  unfoldable pub hw_l3ca_get_min_cbm_bits : Bool → L3ca → List L3ca → Action m.State (Option ℕ)
  hw_l3ca_get_min_cbm_bits granted first stack = do
    l3_cap ← lift (or_resource (as_l3ca (get_type p.interface p.cap l3ca_type)))
    search_on (l3_technology first stack) l3_cap.num_ways (get_sockets granted p.cpu)

  unfoldable pub hw_l2ca_get_min_cbm_bits : Bool → Action m.State (Option ℕ)
  hw_l2ca_get_min_cbm_bits granted = do
    l2_cap ← lift (or_resource (as_l2ca (get_type p.interface p.cap l2ca_type)))
    search_on l2_technology l2_cap.num_ways (get_l2ids granted p.cpu)
