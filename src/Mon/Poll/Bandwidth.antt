-- ===== src/Mon/Poll/Bandwidth.antt =====
-- The bandwidths after a poll that succeeds.
use multi_resource_isolation.Prelude.{
  ℕ, ◌-◌, ◌≡◌, refl, sym, ap, ◌∙◌, Bool, true, false, if◌then◌else◌, arith, false≢true,
}
use multi_resource_isolation.Types.{Result, ok, err, Action, pure, ◌>>◌}
use multi_resource_isolation.Types.Hoare.{Holds, then-Holds}
use multi_resource_isolation.Msr.{Msr}
use multi_resource_isolation.Alloc.{Platform}
use multi_resource_isolation.Mon.{has, EventValues, MonData}
use multi_resource_isolation.Mon.Start.{Watched}
use multi_resource_isolation.Mon.Poll.{
  update_by, poll_if, poll_llc, poll_local, poll_total, poll_remote, poll_ipc, poll_misses,
  end_poll, core_poll, pqos_core_poll, first_read, new_remote,
}

-- The fields that the parts of a poll leave alone.
record Kept (g g' : MonData) : Type 0 where
  valid_mbm_read : g'.valid_mbm_read ≡ g.valid_mbm_read
  poll_ctx : g'.poll_ctx ≡ g.poll_ctx
  cores : g'.cores ≡ g.cores

-- Remote bandwidth is what the total has more than the local, for readings and differences.
pub record Remote (v : EventValues) : Type 0 where
  pub reading : v.mbm_remote ≡ v.mbm_total - v.mbm_local
  pub delta : v.mbm_remote_delta ≡ v.mbm_total_delta - v.mbm_local_delta

abbrev On : (m : Msr) → (MonData → Type 0) → Watched m → Type 0
On m R w = R w.group

module _ (m : Msr) (P Q : MonData → Type 0) where
  update_by_lem :
      {A : Type 0} (f : A → EventValues → EventValues) (g : MonData) (r : Result A) (s : m.State)
      → ((a : A) → P g → Q (record g { values = f a g.values }))
      → P g
      → (update_by m f g r s).0 ≡ ok tt
      → Q (update_by m f g r s).1.group
  update_by_lem f g (ok a) s h p e = h a p
  update_by_lem f g (err x) s h p e = cc

  poll_if-Holds :
      {A : Type 0} (wanted : Bool) (x : Action m.State A) (f : A → EventValues → EventValues)
      → (wanted ≡ false → (g : MonData) → P g → Q g)
      → ((a : A) (g : MonData) → P g → Q (record g { values = f a g.values }))
      → Holds (On m P) (poll_if m wanted x f) (On m Q)
  unfolding poll_if
  poll_if-Holds false x f skip step w u p e = skip refl w.group p
  poll_if-Holds true x f skip step w u p e =
      update_by_lem f w.group (x w.registers).0 (x w.registers).1 (λ a. step a w.group) p e

-- After a poll of group `g`: the bandwidths, and what stays.
pub record Polled (g g' : MonData) : Type 0 where
  pub remote : Remote g'.values
  pub local_first :
      g'.values.mbm_local_delta ≡ (if g.valid_mbm_read then g'.values.mbm_local_delta else 0)
  pub total_first :
      g'.values.mbm_total_delta ≡ (if g.valid_mbm_read then g'.values.mbm_total_delta else 0)
  pub valid_read : g'.valid_mbm_read ≡ true
  pub same_ctx : g'.poll_ctx ≡ g.poll_ctx
  pub same_cores : g'.cores ≡ g.cores

-- The update of a group on its first poll.
abbrev zero_deltas : MonData → MonData
zero_deltas g = record g {
  values = record g.values { mbm_remote_delta = 0; mbm_local_delta = 0; mbm_total_delta = 0 };
  valid_mbm_read = true;
}

older :
    (g x : MonData)
    → Kept g x
    → Remote x.values
    → (b : Bool) → x.valid_mbm_read ≡ b
    → Polled g (if b then x else zero_deltas x)
older g x k r true old =
    let same : g.valid_mbm_read ≡ true = sym k.valid_mbm_read ∙ old in
    record {
      remote = r;
      local_first = sym (ap (λ b. if b then x.values.mbm_local_delta else 0) same);
      total_first = sym (ap (λ b. if b then x.values.mbm_total_delta else 0) same);
      valid_read = old;
      same_ctx = k.poll_ctx;
      same_cores = k.cores;
    }
older g x k r false new =
    let same : g.valid_mbm_read ≡ false = sym k.valid_mbm_read ∙ new in
    record {
      remote = record { reading = r.reading; delta = refl };
      local_first = sym (ap (λ b. if b then 0 else 0) same);
      total_first = sym (ap (λ b. if b then 0 else 0) same);
      valid_read = refl;
      same_ctx = k.poll_ctx;
      same_cores = k.cores;
    }

first_read-Polled : (g x : MonData) → Kept g x → Remote x.values → Polled g (first_read x)
first_read-Polled g x k r = older g x k r x.valid_mbm_read refl

new_remote-Remote : (v : EventValues) → Remote (new_remote v)
new_remote-Remote v = record { reading = ground arith; delta = ground arith }

values-Kept : (g x : MonData) (v : EventValues) → Kept g x → Kept g (record x { values = v })
values-Kept g x v k = record {
  valid_mbm_read = k.valid_mbm_read;
  poll_ctx = k.poll_ctx;
  cores = k.cores;
}

module _ (m : Msr) (read_count : ℕ → m.State → ℕ × m.State) (p : Platform) (g : MonData) where
  abbrev Before : MonData → Type 0
  Before = Kept g

  abbrev After : MonData → Type 0
  After x = Kept g x × Remote x.values

  poll_if-Before :
      {A : Type 0} (wanted : Bool) (x : Action m.State A) (f : A → EventValues → EventValues)
      → Holds (On m Before) (poll_if m wanted x f) (On m Before)
  poll_if-Before wanted x f =
      poll_if-Holds m Before Before wanted x f (λ off y k. k)
        (λ a y k. values-Kept g y (f a y.values) k)

  poll_if-After :
      {A : Type 0} (wanted : Bool) (x : Action m.State A) (f : A → EventValues → EventValues)
      → ((a : A) (v : EventValues) → Remote v → Remote (f a v))
      → Holds (On m After) (poll_if m wanted x f) (On m After)
  poll_if-After wanted x f still =
      poll_if-Holds m After After wanted x f (λ off y k. k)
        (λ a y k. (values-Kept g y (f a y.values) k.0, still a y.values k.1))

  core_poll-Holds :
      has g.event 8 ≡ true → Holds (On m Before) (core_poll m read_count p g) (On m (Polled g))
  unfolding core_poll poll_llc poll_local poll_total poll_remote poll_ipc poll_misses end_poll
  core_poll-Holds remote =
      let B = On m Before in
      let A = On m After in
      let E = On m (Polled g) in
      let llc = poll_llc m read_count p g in
      let local = poll_local m read_count p g in
      let total = poll_total m read_count p g in
      let rest =
        poll_ipc m read_count p g >> (poll_misses m read_count p g >> end_poll m read_count p) in
      then-Holds B B E llc (local >> (total >> (poll_remote m read_count p g >> rest)))
        (poll_if-Before _ _ _)
        (then-Holds B B E local (total >> (poll_remote m read_count p g >> rest))
          (poll_if-Before _ _ _)
          (then-Holds B B E total (poll_remote m read_count p g >> rest) (poll_if-Before _ _ _) (
            then-Holds B A E (poll_remote m read_count p g) rest
              (poll_if-Holds m Before After (has g.event 8) (pure tt) (λ u v. new_remote v)
                (λ off. absurd (false≢true (sym off ∙ remote)))
                (λ u x k. (values-Kept g x (new_remote x.values) k, new_remote-Remote x.values)))
              (then-Holds A A E (poll_ipc m read_count p g)
                (poll_misses m read_count p g >> end_poll m read_count p)
                (poll_if-After _ _ _ (λ sums v r. record { reading = r.reading; delta = r.delta }))
                (then-Holds A A E (poll_misses m read_count p g) (end_poll m read_count p)
                  (poll_if-After _ _ _
                    (λ missed v r. record { reading = r.reading; delta = r.delta }))
                  (λ w u k e. first_read-Polled g w.group k.0 k.1))))))

  -- A poll that succeeds on a group with remote bandwidth reports it as total less local, not below
  -- 0, for the readings and for the differences; on the first poll the local and total differences
  -- are 0; later ones are no longer the first, and the contexts and cores stay.
  pub pqos_core_poll-Polled :
      (s : m.State)
      → has g.event 8 ≡ true
      → (pqos_core_poll m read_count p (record { group = g; registers = s })).0 ≡ ok tt
      → Polled g (pqos_core_poll m read_count p (record { group = g; registers = s })).1.group
  unfolding pqos_core_poll
  pqos_core_poll-Polled s remote h =
      core_poll-Holds remote (record { group = g; registers = s }) tt
        (record { valid_mbm_read = refl; poll_ctx = refl; cores = refl }) h
