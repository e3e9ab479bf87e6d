-- ===== src/Mon/Start/Stopped.antt =====
-- A success of `hw_mon_stop`, and monitoring that is started and stopped.
use multi_resource_isolation.Prelude.{
  ℕ, ◌^◌, ◌≤◌, ◌≡◌, refl, sym, ap, ◌∙◌, Bool, true, false, if◌then◌else◌, List, [], ◌∷◌, Bool-cases,
  inl, inr,
}
use multi_resource_isolation.Types.{Retval, Result, ok, err, Action, lift, ◌>>=◌}
use multi_resource_isolation.Msr.{Msr, Registers}
use multi_resource_isolation.Msr.Keeps.{Keeps, bind-Keeps}
use multi_resource_isolation.Cpu.{listed, check_core}
use multi_resource_isolation.Alloc.{Platform}
use multi_resource_isolation.Alloc.Assoc.{class_of, or_param}
use multi_resource_isolation.Alloc.Assoc.Field.{class_in, PerCore}
use multi_resource_isolation.Mon.{PollCtx, MonData, zero_group}
use multi_resource_isolation.Mon.Assoc.{rmid_of, zero_rmids, mon_assoc_get}
use multi_resource_isolation.Mon.Assoc.Field.{rmid_in, mon_assoc_get-Keeps}
use multi_resource_isolation.Mon.Assoc.Reset.{Strict, zero_rmids_lem}
use multi_resource_isolation.Mon.Perf.{ia32_perf_counter_stop}
use multi_resource_isolation.Mon.Perf.Keeps.{ia32_perf_counter_stop-Keeps}
use multi_resource_isolation.Mon.Start.{
  Grants, Watched, get_or_param, then_resource, check_contexts, after_check, end_monitoring,
  without_cores, hw_mon_start, hw_mon_stop,
}
use multi_resource_isolation.Mon.Start.Started.{started, hw_mon_start_lem}

then_resource-Strict : Strict then_resource
then_resource-Strict r (ok tt) h = (h, refl)
then_resource-Strict r (err e) h = cc

module _ (m : Msr) (g : Registers m) (p : Platform) where
  check_contexts-Keeps : (xs : List PollCtx) {reg : ℕ} → Keeps g reg (check_contexts m p xs)
  unfolding check_contexts
  check_contexts-Keeps [] = λ s c. refl
  check_contexts-Keeps (x ∷ xs) =
      bind-Keeps g (lift (or_param (check_core p.cpu x.lcore)))
        (λ u. get_or_param (mon_assoc_get m x.lcore) >>= λ rmid. check_contexts m p xs)
        (λ s c. refl)
        (λ u.
          bind-Keeps g (get_or_param (mon_assoc_get m x.lcore)) (λ rmid. check_contexts m p xs)
            (mon_assoc_get-Keeps m g x.lcore) (λ rmid. check_contexts-Keeps xs))

  checked_ok :
      (group : MonData) (r : Result (Unit {0})) (end : Action m.State (Unit {0})) (t : m.State)
      → (after_check m group r end t).0 ≡ ok tt
      → ((end t).0 ≡ ok tt)
        × ((after_check m group r end t).1 ≡ record { group = zero_group; registers = (end t).1 })
  checked_ok group (ok u) end t h = (h, refl)
  checked_ok group (err e) end t h = cc

  -- The parts of a call that succeeds: a check that changes nothing, and the end of monitoring.
  stopped :
      (w : Watched m)
      → (hw_mon_stop m p w).0 ≡ ok tt
      → let t = (check_contexts m p w.group.poll_ctx w.registers).1 in
        ((end_monitoring m w.group t).0 ≡ ok tt)
        × ((hw_mon_stop m p w).1
            ≡ record { group = zero_group; registers = (end_monitoring m w.group t).1 })
  unfolding hw_mon_stop
  stopped w h = by_cores (without_cores m w.group) h
    where
      go_on : Result (Unit {0}) × Watched m
      go_on =
          let (checked, t) = check_contexts m p w.group.poll_ctx w.registers in
          after_check m w.group checked (end_monitoring m w.group) t

      by_cores :
          (b : Bool)
          → (elim b as (λ x. Result (Unit {0}) × Watched m) [
            | true ↦ (err Retval.param, w)
            | false ↦ go_on
          ]).0
            ≡ ok tt
          → let t = (check_contexts m p w.group.poll_ctx w.registers).1 in
            ((end_monitoring m w.group t).0 ≡ ok tt)
            × ((elim b as (λ x. Result (Unit {0}) × Watched m) [
              | true ↦ (err Retval.param, w)
              | false ↦ go_on
            ]).1
                ≡ record { group = zero_group; registers = (end_monitoring m w.group t).1 })
      by_cores true e = cc
      by_cores false e =
          let (checked, t) = check_contexts m p w.group.poll_ctx w.registers in
          checked_ok w.group checked (end_monitoring m w.group) t e

  module _ (own : PerCore g) where
    ended :
        (group : MonData) (s : m.State) (c : ℕ)
        → (end_monitoring m group s).0 ≡ ok tt
        → let s' = (end_monitoring m group s).1 in
          (rmid_in g s' c ≡ (if listed c group.cores then 0 else rmid_in g s c))
          × (class_in g s' c ≡ class_in g s c)
    unfolding end_monitoring
    ended group s c h =
        let (freed, t) = zero_rmids m then_resource group.cores (ok tt) s in
        let (u, v) = ia32_perf_counter_stop m group.event group.cores t in
        let (first, second) = then_resource-Strict freed u h in
        let (start, rmid, class) =
          zero_rmids_lem m g own then_resource then_resource-Strict group.cores (ok tt) s c first in
        let kept = ia32_perf_counter_stop-Keeps m g group.event group.cores t c in
        (ap rmid_of kept ∙ rmid, ap class_of kept ∙ class)

    -- A success of `hw_mon_stop`: the group is cleared, its cores are at RMID 0, the other cores
    -- keep their RMID, and every core its class.
    hw_mon_stop_lem :
        (w : Watched m) (c : ℕ)
        → (hw_mon_stop m p w).0 ≡ ok tt
        → let w' = (hw_mon_stop m p w).1 in
          (w'.group ≡ zero_group)
          × (rmid_in g w'.registers c
              ≡ (if listed c w.group.cores then 0 else rmid_in g w.registers c))
          × (class_in g w'.registers c ≡ class_in g w.registers c)
    hw_mon_stop_lem w c h =
        let t = (check_contexts m p w.group.poll_ctx w.registers).1 in
        let (done, after) = stopped w h in
        let (rmid, class) = ended w.group t c done in
        let kept = check_contexts-Keeps w.group.poll_ctx w.registers c in
        (
          ap (λ (x : Watched m). x.group) after,
          ap (λ (x : Watched m). rmid_in g x.registers c) after
              ∙ rmid
              ∙ ap (λ v. if listed c w.group.cores then 0 else rmid_of v) kept,
          ap (λ (x : Watched m). class_in g x.registers c) after ∙ class ∙ ap class_of kept,
        )

module _ (m : Msr) (g : Registers m) (own : PerCore g) (p : Platform) (rmid_max : ℕ)
    (grants : Grants) (cores : List ℕ) (event context : ℕ) (s : m.State) where
  -- The end of the monitoring that was started.
  abbrev pub again : MonData → Result (Unit {0}) × Watched m
  again group = hw_mon_stop m p (record {
    group = group;
    registers = (hw_mon_start m p rmid_max grants cores event context s).1;
  })

  -- Monitoring that is started and stopped, both with success and with RMIDs of 10 bits, leaves the
  -- RMID and the class of every core as they were, and the group cleared.
  pub hw_mon_stop-start :
      {group : MonData} (c : ℕ)
      → rmid_max ≤ 2 ^ 10
      → (hw_mon_start m p rmid_max grants cores event context s).0 ≡ ok group
      → (again group).0 ≡ ok tt
      → ((again group).1.group ≡ zero_group)
        × (rmid_in g (again group).1.registers c ≡ rmid_in g s c)
        × (class_in g (again group).1.registers c ≡ class_in g s c)
  hw_mon_stop-start {group} c small h k =
      let s' = (hw_mon_start m p rmid_max grants cores event context s).1 in
      let (listed_core, other, class) =
        hw_mon_start_lem m g own p rmid_max grants cores event context s {group = group} c small
          h in
      let (cleared, rmid, class') =
        hw_mon_stop_lem m g p own (record { group = group; registers = s' }) c k in
      let (planned, v, made, linked, alike, end, named, tabled) =
        started m g p rmid_max grants cores event context s {group = group} h in
      let now = rmid ∙ ap (λ l. if listed c l then 0 else rmid_in g s' c) named in
      (
        cleared,
        elim (Bool-cases (listed c cores)) [
          | inl here ↦
              now ∙ ap (λ b. if b then 0 else rmid_in g s' c) here ∙ sym (listed_core here).2
          | inr away ↦ now ∙ ap (λ b. if b then 0 else rmid_in g s' c) away ∙ other away
        ],
        class' ∙ class,
      )
