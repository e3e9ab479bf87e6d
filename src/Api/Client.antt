-- ===== src/Api/Client.antt =====
-- The API on the MSR interface, as a client of the library sees it.
use multi_resource_isolation.Prelude.{
  ℕ, ◌+◌, ◌≤◌, ◌<◌, ◌≡◌, ap, ◌∙◌, Bool, true, false, length, List, ◌∷◌, some, arith, All,
}
use multi_resource_isolation.Types.{ok}
use multi_resource_isolation.Msr.{Msr, Registers, Accepts}
use multi_resource_isolation.Cpu.{get_one_core}
use multi_resource_isolation.Cap.{msr, l3ca_get_cos_num, l3ca_cdp_enabled}
use multi_resource_isolation.Alloc.{msr_l3ca_mask_start}
use multi_resource_isolation.Alloc.L3.{L3ca, hw_l3ca_set, hw_l3ca_get}
use multi_resource_isolation.Alloc.L3.Set.{last_ways, InRange}
use multi_resource_isolation.Alloc.L3.Get.{HasWays}
use multi_resource_isolation.Alloc.L3.RoundTrip.{l3ca_get-set_ways}
use multi_resource_isolation.Api.{
  Backend, Backends, Tasks, Library, locked, entered, unlocked, under_lock,
}
use multi_resource_isolation.Api.Tables.{all_l3_contiguous, pqos_l3ca_set, pqos_l3ca_get}
use multi_resource_isolation.Api.Hw.{Hardware, hw_backend}

module _ (m : Msr) (sockets l2ids : Bool) (first : L3ca) (stack : List L3ca)
    (os_side : Backend (Hardware m)) (tasks : Tasks (Hardware m)) where
  -- The library on Linux, with the functions of lib/allocation.c behind its MSR interface.
  abbrev pub linked : Backends (Hardware m)
  linked = record { hw = hw_backend m sockets l2ids first stack; os = os_side; tasks = tasks }

  served_set :
      (socket : ℕ) (ca : L3ca) (cas : List L3ca) (l : Library (Hardware m))
      → l.init_done ≡ true
      → l.interface ≡ msr
      → all_l3_contiguous (ca ∷ cas) ≡ true
      → let done = hw_l3ca_set m l.state.platform socket (ca ∷ cas) l.state.registers in
        pqos_l3ca_set linked socket (some (ca ∷ cas)) l ≡ (
          done.0,
          record l {
            events = unlocked ∷ entered ∷ locked ∷ l.events;
            state = record l.state { registers = done.1 };
          },
        )
  unfolding pqos_l3ca_set under_lock
  served_set socket ca cas l ready face fine = ground (arith, ready, face, fine)

  served_get :
      (socket : ℕ) (e : L3ca) (table : List L3ca) (l : Library (Hardware m))
      → l.init_done ≡ true
      → l.interface ≡ msr
      → (pqos_l3ca_get linked socket true (some (e ∷ table)) l).0
        ≡ (hw_l3ca_get m l.state.platform socket (e ∷ table) l.state.registers).0
  unfolding pqos_l3ca_get under_lock
  served_get socket e table l ready face = ground (arith, ready, face)

  -- With CDP off, at most 128 classes, a core on the socket and a driver that accepts every access, on
  -- an initialised library with the MSR interface: a table that is not longer than the number of
  -- classes, whose classes are below 128 and whose entries have single, contiguous masks of 64 bits, is
  -- set with OK, and read back into a table with room gives each class the mask of its last entry, or
  -- what its register held before.
  pub pqos_l3ca_get-set :
      (l : Library (Hardware m)) (socket count core k : ℕ) (cdp : Bool × Bool) (ca e : L3ca)
      (cas table : List L3ca) (a : Accepts m) (g : Registers m)
      → let p = l.state.platform in
        l.init_done ≡ true
        → l.interface ≡ msr
        → l3ca_get_cos_num p.interface p.cap ≡ ok count
        → l3ca_cdp_enabled p.interface p.cap ≡ ok cdp
        → get_one_core p.cpu socket ≡ ok core
        → cdp.1 ≡ false
        → count ≤ 128
        → count ≤ length (e ∷ table)
        → k < count
        → length (ca ∷ cas) ≤ count
        → All (InRange 128) (ca ∷ cas)
        → All (λ c. c.cdp ≡ false) (ca ∷ cas)
        → all_l3_contiguous (ca ∷ cas) ≡ true
        → let (r, l') = pqos_l3ca_set linked socket (some (ca ∷ cas)) l in
          (r ≡ ok tt)
          × ((out : List L3ca) × ((pqos_l3ca_get linked socket true (some (e ∷ table)) l').0
                ≡ ok out)
              × HasWays out k (
                  last_ways (ca ∷ cas) k (g.peek l.state.registers core (msr_l3ca_mask_start + k))))
  pqos_l3ca_get-set l socket count core k cdp ca e cas table a g ready face classes flags found off
        few room low fits range plain fine =
      let p = l.state.platform in
      let s = l.state.registers in
      let set_done = hw_l3ca_set m p socket (ca ∷ cas) s in
      let (done, (out, got, has)) =
        l3ca_get-set_ways m p socket count core cdp classes flags found a g (e ∷ table) k room few
          low (ca ∷ cas) s off fits range plain in
      let set = served_set socket ca cas l ready face fine in
      let l' : Library (Hardware m) = record l {
        events = unlocked ∷ entered ∷ locked ∷ l.events;
        state = record l.state { registers = set_done.1 };
      } in
      (
        ap (λ t. t.0) set ∙ done,
        (
          out,
          ap (λ t. (pqos_l3ca_get linked socket true (some (e ∷ table)) t.1).0) set
              ∙ served_get socket e table l' ready face
              ∙ got,
          has,
        ),
      )
