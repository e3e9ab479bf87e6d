-- ===== src/Init/During.antt =====
-- The calls between the labels of `pqos_init` (lib/cap.c): how the set-up under way ends, before
-- `init_error`.
use multi_resource_isolation.Prelude.{true, false, Option, none, some}
use multi_resource_isolation.Types.{Retval, Result, ok, err, Action, ◌>>=◌, ◌>>◌}
use multi_resource_isolation.Cpu.{Cpuinfo}
use multi_resource_isolation.Cap.{Cap}
use multi_resource_isolation.Init.{
  on_rest, undo_after, or_fini, hw_caps, features, with_machine, with_cpu, with_log, no_cpuinfo,
  max_core, store_cpu, store_cap, os_capabilities, unless_error, Config, Parts, Site, services,
}

module _ {S : Type 0} where
  -- A library in the middle of its set-up, with the lock file open and the mutex held, and with
  -- what `m_cpu` and `m_cap` are by then.
  abbrev pub during : Option Cpuinfo → Option Cap → S → Site S
  during c k s = record {
    init_done = false;
    lock_open = true;
    held = true;
    cpu = c;
    cap = k;
    rest = s;
  }

  -- How the calls of the set-up end: with both tables, or with an error and any of them.
  pub data Ends : Result (Unit {0}) → Site S → Type 0 where
    stopped :
        (e : Retval) (c : Option Cpuinfo) (k : Option Cap) (s : S) → Ends (err e) (during c k s)
    complete : (cpu : Cpuinfo) (cap : Cap) (s : S) → Ends (ok tt) (during (some cpu) (some cap) s)

  abbrev pub EndsAt : Result (Unit {0}) × Site S → Type 0
  EndsAt t = Ends t.0 t.1

  -- A call on the rest, and what follows it.
  on_rest-EndsAt :
      {A : Type 0} (x : Action S A) (f : A → Action (Site S) (Unit {0})) (c : Option Cpuinfo)
      (k : Option Cap) (s : S)
      → ((a : A) (t : S) → EndsAt (f a (during c k t)))
      → EndsAt ((on_rest x >>= f) (during c k s))
  on_rest-EndsAt {A} x f c k s h = by_result (x s).0 (x s).1
    where
      by_result :
          (r : Result A) (t : S)
          → EndsAt (elim r [ ok a ↦ f a (during c k t) | err e ↦ (err e, during c k t) ])
      by_result (ok a) t = h a t
      by_result (err e) t = stopped e c k t

  undo_after-Ends :
      (fini : Action S (Unit {0})) (r : Result (Unit {0})) (l : Site S)
      → Ends r l
      → EndsAt (undo_after fini r l)
  undo_after-Ends fini r l (stopped e c k s) = stopped e c k (fini s).1
  undo_after-Ends fini r l (complete cpu cap s) = complete cpu cap s

  last-EndsAt :
      (cpu : Cpuinfo) (cap : Cap) (r : Result (Unit {0})) (s : S)
      → Ends r (during (some cpu) (some cap) s)
  last-EndsAt cpu cap (ok u) s = complete cpu cap s
  last-EndsAt cpu cap (err e) s = stopped e (some cpu) (some cap) s

module _ {S : Type 0} (parts : Parts S) where
  -- The calls once the table of the OS is there.
  with_cap-EndsAt :
      (config : Config) (cpu : Cpuinfo) (cap : Cap) (s : S)
      → EndsAt (
          (on_rest (hw_caps parts config cap)
              >> (on_rest (parts.utils_init config.interface)
                  >> (on_rest (parts.api_init config.interface)
                      >> on_rest (features parts config cpu cap))))
            (during (some cpu) (some cap) s))
  with_cap-EndsAt config cpu cap s =
      let c = some cpu in
      let k = some cap in
      let last = on_rest (features parts config cpu cap) in
      let api = on_rest (parts.api_init config.interface) >> last in
      on_rest-EndsAt (hw_caps parts config cap)
        (λ u. on_rest (parts.utils_init config.interface) >> api) c k s
        (λ u t.
          on_rest-EndsAt (parts.utils_init config.interface) (λ v. api) c k t
            (λ v t'.
              on_rest-EndsAt (parts.api_init config.interface) (λ w. last) c k t'
                (λ w t''.
                  last-EndsAt cpu cap (features parts config cpu cap t'').0
                    (features parts config cpu cap t'').1)))

  -- The calls that follow `discover_os_capabilities`.
  abbrev tail : Config → Cpuinfo → Cap → Action (Site S) (Unit {0})
  tail config cpu cap =
      on_rest (hw_caps parts config cap)
      >> (on_rest (parts.utils_init config.interface)
          >> (on_rest (parts.api_init config.interface) >> on_rest (features parts config cpu cap)))

  os_capabilities-EndsAt :
      (config : Config) (cpu : Cpuinfo) (cap : Cap) (k : Option Cap) (s : S)
      → EndsAt ((os_capabilities parts config cap >>= tail config cpu) (during (some cpu) k s))
  os_capabilities-EndsAt config cpu cap k s =
      let (r, cap', t) = parts.discover_os_capabilities config.interface cap s in
      by_code (unless_error r) cap' t
    where
      by_code :
          (q : Result (Unit {0})) (cap' : Cap) (t : S)
          → EndsAt {S = S} (elim (elim q as (λ x. Result Cap) [ ok u ↦ ok cap' | err e ↦ err e ]) [
            | ok found ↦ tail config cpu found (during (some cpu) (some cap') t)
            | err e ↦ (err e, during (some cpu) (some cap') t)
          ])
      by_code (ok u) cap' t = with_cap-EndsAt config cpu cap' t
      by_code (err e) cap' t = stopped e (some cpu) (some cap') t

  with_machine-EndsAt :
      (config : Config) (cpu : Cpuinfo) (k : Option Cap) (s : S)
      → EndsAt (with_machine parts config cpu (during (some cpu) k s))
  unfolding with_machine
  with_machine-EndsAt config cpu k s =
      by_result (parts.discover_capabilities cpu s).0 (parts.discover_capabilities cpu s).1
    where
      by_result :
          (r : Result Cap) (t : S)
          → EndsAt {S = S} (
              let (q, l) = store_cap r t (during (some cpu) k s) in
              elim q [
                | ok cap ↦ (os_capabilities parts config cap >>= tail config cpu) l
                | err e ↦ (err e, l)
              ])
      by_result (ok cap) t = os_capabilities-EndsAt config cpu cap (some cap) t
      by_result (err e) t = stopped e (some cpu) k t

  or_fini-EndsAt :
      (fini : Action S (Unit {0})) (x : Action (Site S) (Unit {0})) (l : Site S)
      → EndsAt (x l)
      → EndsAt (or_fini fini x l)
  or_fini-EndsAt fini x l h = undo_after-Ends fini (x l).0 (x l).1 h

  with_cpu-EndsAt :
      (config : Config) (cpu : Cpuinfo) (k : Option Cap) (s : S)
      → EndsAt (with_cpu parts config cpu (during (some cpu) k s))
  unfolding with_cpu
  with_cpu-EndsAt config cpu k s =
      on_rest-EndsAt (parts.machine_init (max_core cpu.cores 0))
        (λ u. or_fini parts.machine_fini (with_machine parts config cpu)) (some cpu) k s
        (λ u t.
          or_fini-EndsAt parts.machine_fini (with_machine parts config cpu) (during (some cpu) k t)
            (with_machine-EndsAt config cpu k t))

  with_log-EndsAt :
      (config : Config) (c : Option Cpuinfo) (k : Option Cap) (s : S)
      → EndsAt (with_log parts config (during c k s))
  unfolding with_log
  with_log-EndsAt config c k s = by_result (parts.cpuinfo_init s).0 (parts.cpuinfo_init s).1
    where
      by_result :
          (r : Result (Option Cpuinfo)) (t : S)
          → EndsAt {S = S} (
              let (q, l) = store_cpu r t (during c k s) in
              elim q [
                | ok cpu ↦ or_fini (no_cpuinfo parts) (with_cpu parts config cpu) l
                | err e ↦ (err e, l)
              ])
      by_result (ok (some cpu)) t =
          or_fini-EndsAt (no_cpuinfo parts) (with_cpu parts config cpu) (during (some cpu) k t)
            (with_cpu-EndsAt config cpu k t)
      by_result (ok none) t = stopped Retval.error none k t
      by_result (err e) t = stopped Retval.error c k t

  -- The whole set-up.
  pub services-EndsAt :
      (config : Config) (c : Option Cpuinfo) (k : Option Cap) (s : S)
      → EndsAt (services parts config (during c k s))
  unfolding services
  services-EndsAt config c k s =
      on_rest-EndsAt (parts.log_init config) (λ u. or_fini parts.log_fini (with_log parts config)) c
        k s
        (λ u t.
          or_fini-EndsAt parts.log_fini (with_log parts config) (during c k t)
            (with_log-EndsAt config c k t))
