-- ===== src/Alloc/L3/RoundTrip.antt =====
-- What `hw_l3ca_get` returns, and that it reads back what `hw_l3ca_set` wrote.
use multi_resource_isolation.Prelude.{
  ℕ, ◌+◌, ◌*◌, ◌≤◌, ◌<◌, ◌≡◌, refl, ap, ap₂, ◌∙◌, Bool, true, false, List, All, arith,
  if◌then◌else◌, ◌==◌, length, ltb, eq→==, inl, inr, some,
}
use multi_resource_isolation.Types.{ok, err, Retval}
use multi_resource_isolation.Msr.{Msr, Registers, Accepts}
use multi_resource_isolation.Cpu.{get_one_core}
use multi_resource_isolation.Cap.{l3ca_get_cos_num, l3ca_cdp_enabled}
use multi_resource_isolation.Alloc.{Platform, msr_l3ca_mask_start}
use multi_resource_isolation.Alloc.L3.{L3ca, get_ways, get_cdp, hw_l3ca_get}
use multi_resource_isolation.Alloc.L3.Get.{
  ways_table, cdp_table, get_ways_lem, get_cdp_lem, HasWays, HasMasks, length-ways_table,
  length-cdp_table, ways_table-entry, cdp_table-entry, same_entry, cdp_entry,
}
use multi_resource_isolation.Alloc.L3.{hw_l3ca_set}
use multi_resource_isolation.Alloc.L3.Set.{last_ways, last_data, last_code, InRange}
use multi_resource_isolation.Alloc.L3.Registers.{
  hw_l3ca_set-total, hw_l3ca_set-ways, hw_l3ca_set-cdp,
}

module _ (m : Msr) (p : Platform) (socket count core : ℕ) (cdp : Bool × Bool)
    (classes : l3ca_get_cos_num p.interface p.cap ≡ ok count)
    (flags : l3ca_cdp_enabled p.interface p.cap ≡ ok cdp)
    (found : get_one_core p.cpu socket ≡ ok core) where
  -- The calls before the loops, and the guard between them.
  pub hw_l3ca_get-guards :
      (table : List L3ca) (s : m.State)
      → hw_l3ca_get m p socket table s ≡ (
          if ltb (length table) count
          then (err Retval.error, s)
          else (if cdp.1
              then get_cdp m core count 0 msr_l3ca_mask_start table s
              else get_ways m core count 0 msr_l3ca_mask_start table s))
  unfolding hw_l3ca_get
  hw_l3ca_get-guards table s = ground arith

  -- The loop that runs where the caller's table has room.
  get_loop_ways :
      (table : List L3ca) (s : m.State)
      → count ≤ length table
      → cdp.1 ≡ false
      → hw_l3ca_get m p socket table s ≡ get_ways m core count 0 msr_l3ca_mask_start table s
  get_loop_ways table s room off = ground (arith, hw_l3ca_get-guards table s)

  get_loop_cdp :
      (table : List L3ca) (s : m.State)
      → count ≤ length table
      → cdp.1 ≡ true
      → hw_l3ca_get m p socket table s ≡ get_cdp m core count 0 msr_l3ca_mask_start table s
  get_loop_cdp table s room on = ground (arith, hw_l3ca_get-guards table s)

  module _ (a : Accepts m) (g : Registers m) (table : List L3ca) (k : ℕ)
      (room : count ≤ length table) (small : count ≤ 128) (low : k < count) where
    -- With CDP off `hw_l3ca_get` returns an entry for each class, in order; entry `k` has the mask
    -- that the register of class `k` holds.
    pub hw_l3ca_get-ways :
        (s : m.State)
        → cdp.1 ≡ false
        → (out : List L3ca) × ((hw_l3ca_get m p socket table s).0 ≡ ok out)
          × (length out ≡ count)
          × HasWays out k (g.peek s core (msr_l3ca_mask_start + k))
    hw_l3ca_get-ways s off =
        let value = g.peek s core in
        let (e, at, class, flag, mask) =
          ways_table-entry value count 0 msr_l3ca_mask_start table k room low (omega arith) in
        (
          ways_table value count 0 msr_l3ca_mask_start table,
          ap (λ t. t.0) (get_loop_ways table s room off)
              ∙ get_ways_lem m a g core count 0 msr_l3ca_mask_start table s value (λ r. refl),
          length-ways_table value count 0 msr_l3ca_mask_start table room,
          (e, at, omega (arith, class), flag, mask),
        )

    -- With CDP on entry `k` has the data mask and the code mask of the two registers of class `k`.
    pub hw_l3ca_get-cdp :
        (s : m.State)
        → cdp.1 ≡ true
        → (out : List L3ca) × ((hw_l3ca_get m p socket table s).0 ≡ ok out)
          × (length out ≡ count)
          × HasMasks out k
              (g.peek s core (msr_l3ca_mask_start + 2 * k))
              (g.peek s core (msr_l3ca_mask_start + 2 * k + 1))
    hw_l3ca_get-cdp s on =
        let value = g.peek s core in
        (
          cdp_table value count 0 msr_l3ca_mask_start table,
          ap (λ t. t.0) (get_loop_cdp table s room on)
              ∙ get_cdp_lem m a g core count 0 msr_l3ca_mask_start table s value (λ r. refl),
          length-cdp_table value count 0 msr_l3ca_mask_start table room,
          cdp_table-entry value count 0 msr_l3ca_mask_start table k room low (omega arith)
              ∙ same_entry value (0 + k) k (msr_l3ca_mask_start + 2 * k)
                  (msr_l3ca_mask_start + 2 * k) (msr_l3ca_mask_start + 2 * k + 1)
                  (msr_l3ca_mask_start + 2 * k + 1) (omega arith) refl refl,
        )

    near_if : (r v w : ℕ) → (if g.domain r core == g.domain r core then v else w) ≡ v
    near_if r v w = ap (λ b. if b then v else w) (eq→== (g.domain r core) (g.domain r core) refl)

    -- Round trip with CDP off, at most 128 classes, a core on the socket and a driver that accepts every
    -- access: `hw_l3ca_set` succeeds on a table that is not longer than the number of classes, whose
    -- classes are below 128 and whose entries have single masks of 64 bits, and `hw_l3ca_get` afterwards,
    -- into a table with room for all classes, returns for each class the mask of the table's last entry
    -- for the class, or what the register held before where there is none.
    pub l3ca_get-set_ways :
        (ca : List L3ca) (s : m.State)
        → cdp.1 ≡ false
        → length ca ≤ count
        → All (InRange 128) ca
        → All (λ e. e.cdp ≡ false) ca
        → let (r, s') = hw_l3ca_set m p socket ca s in
          (r ≡ ok tt)
          × ((out : List L3ca) × ((hw_l3ca_get m p socket table s').0 ≡ ok out)
              × HasWays out k (last_ways ca k (g.peek s core (msr_l3ca_mask_start + k))))
    l3ca_get-set_ways ca s off fits range plain =
        let done =
          hw_l3ca_set-total m p socket count core cdp classes flags found ca s a fits (inr plain) in
        let (_, _, now, _) =
          hw_l3ca_set-ways m p socket count core cdp classes flags found g ca s core k 0 off range
            (omega arith) (inl (omega arith)) done in
        let (out, got, _, (e, at, class, flag, mask)) =
          hw_l3ca_get-ways (hw_l3ca_set m p socket ca s).1 off in
        (done, (out, got, (e, at, class, flag, mask ∙ now ∙ near_if _ _ _)))

    -- Round trip with CDP on, at most 64 classes, a core on the socket and a driver that accepts every
    -- access: `hw_l3ca_set` succeeds on a table that is not longer than the number of classes, whose
    -- classes are below 64 and whose masks have 64 bits, and in what `hw_l3ca_get` returns afterwards,
    -- into a table with room, entry `k` has the data mask and the code mask of the table's last entry
    -- for class `k`, both its one mask where it has one, or what the two registers held before.
    pub l3ca_get-set_cdp :
        (ca : List L3ca) (s : m.State)
        → cdp.1 ≡ true
        → count ≤ 64
        → length ca ≤ count
        → All (InRange 64) ca
        → let (r, s') = hw_l3ca_set m p socket ca s in
          (r ≡ ok tt)
          × ((out : List L3ca) × ((hw_l3ca_get m p socket table s').0 ≡ ok out)
              × HasMasks out k
                  (last_data ca k (g.peek s core (msr_l3ca_mask_start + 2 * k)))
                  (last_code ca k (g.peek s core (msr_l3ca_mask_start + 2 * k + 1))))
    l3ca_get-set_cdp ca s on few fits range =
        let done =
          hw_l3ca_set-total m p socket count core cdp classes flags found ca s a fits (inl on) in
        let (_, data_now, code_now, _) =
          hw_l3ca_set-cdp m p socket count core cdp classes flags found g ca s core k 0 on range
            (omega arith) (inl (omega arith)) done in
        let (out, got, _, entry) = hw_l3ca_get-cdp (hw_l3ca_set m p socket ca s).1 on in
        (
          done,
          (
            out,
            got,
            entry
                ∙ ap₂ (λ d c. some (cdp_entry k d c)) (data_now ∙ near_if _ _ _)
                    (code_now ∙ near_if _ _ _),
          ),
        )
