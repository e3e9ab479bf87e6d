-- ===== src/Init/Ready.antt =====
-- The library is set up or it is not: nothing is left half done.
use multi_resource_isolation.Prelude.{Bool, true, false, List, Option, none, some, ℕ}
use multi_resource_isolation.Types.{Retval, Result, ok, err}
use multi_resource_isolation.Cpu.{Cpuinfo}
use multi_resource_isolation.Cap.{Cap}
use multi_resource_isolation.Init.{
  Config, Parts, Site, allowed, services, after_mutex, after_open, lock_init, lock_exit, conclude,
  init_locked, after_lock_init, if_allowed, pqos_init, finish_services, pqos_fini, pqos_cap_get,
}
use multi_resource_isolation.Init.During.{during, Ends, stopped, complete, services-EndsAt}

-- A library that is not set up: no lock file, no tables; and one that is. The mutex is free.
abbrev pub down : {S : Type 0} → S → Site S
down s = record {
  init_done = false;
  lock_open = false;
  held = false;
  cpu = none;
  cap = none;
  rest = s;
}

abbrev pub up : {S : Type 0} → Cpuinfo → Cap → S → Site S
up cpu cap s = record {
  init_done = true;
  lock_open = true;
  held = false;
  cpu = some cpu;
  cap = some cap;
  rest = s;
}

-- A code of `pqos_init`, and the library that it leaves.
pub data Settled {S : Type 0} : Result (Unit {0}) → Site S → Type 0 where
  failed : (e : Retval) (s : S) → Settled (err e) (down s)
  started : (cpu : Cpuinfo) (cap : Cap) (s : S) → Settled (ok tt) (up cpu cap s)

pub data Ready {S : Type 0} : Site S → Type 0 where
  is_down : (s : S) → Ready (down s)
  is_up : (cpu : Cpuinfo) (cap : Cap) (s : S) → Ready (up cpu cap s)

Settled-Ready : {S : Type 0} (r : Result (Unit {0})) (l : Site S) → Settled r l → Ready l
Settled-Ready r l (failed e s) = is_down s
Settled-Ready r l (started cpu cap s) = is_up cpu cap s

module _ {S : Type 0} (parts : Parts S) where
  conclude-Settled :
      (r : Result (Unit {0})) (l : Site S)
      → Ends r l
      → Settled (conclude parts r l).0 (conclude parts r l).1
  unfolding conclude lock_exit
  conclude-Settled r l (complete cpu cap s) = started cpu cap s
  conclude-Settled r l (stopped e c k s) = failed e (parts.mutex_destroy (parts.close_lock s).1).1

  abbrev EndOf : Config → Bool × Site S → Type 0
  EndOf config t =
      Settled (after_lock_init parts config t.0 t.1).0 (after_lock_init parts config t.0 t.1).1

  mutex-Settled :
      (config : Config) (made : Bool) (s t : S) → EndOf config (after_mutex parts made (down s) t)
  unfolding init_locked
  mutex-Settled config true s t =
      let (r, l) = services parts config (during none none t) in
      conclude-Settled r l (services-EndsAt parts config none none t)
  mutex-Settled config false s t = failed Retval.error (parts.close_lock t).1

  open-Settled :
      (config : Config) (opened : Bool) (s t : S)
      → EndOf config (after_open parts opened (down s) t)
  open-Settled config true s t =
      mutex-Settled config (parts.mutex_init t).0 s (parts.mutex_init t).1
  open-Settled config false s t = failed Retval.error t

  allowed-Settled :
      (config : Config) (may : Bool) (s : S)
      → Settled (if_allowed parts config may (down s)).0 (if_allowed parts config may (down s)).1
  unfolding lock_init
  allowed-Settled config true s = open-Settled config (parts.open_lock s).0 s (parts.open_lock s).1
  allowed-Settled config false s = failed Retval.error s

  -- On a library that is not set up, `pqos_init` returns OK and leaves it set up, with its lock file
  -- and both tables, or returns an error and leaves it without any of them; the mutex is free.
  pub pqos_init-Settled :
      (environment : Option (List ℕ)) (config : Option Config) (s : S)
      → Settled
          (pqos_init parts environment config (down s)).0
          (pqos_init parts environment config (down s)).1
  unfolding pqos_init
  pqos_init-Settled environment none s = failed Retval.param s
  pqos_init-Settled environment (some config) s =
      allowed-Settled config (allowed environment config.interface) s

  again-Ready :
      (config : Config) (may : Bool) (cpu : Cpuinfo) (cap : Cap) (s : S)
      → Ready (if_allowed parts config may (up cpu cap s)).1
  unfolding lock_init
  again-Ready config true cpu cap s = is_up cpu cap s
  again-Ready config false cpu cap s = is_up cpu cap s

  pqos_init-Ready :
      (environment : Option (List ℕ)) (config : Option Config) (l : Site S)
      → Ready l
      → Ready (pqos_init parts environment config l).1
  unfolding pqos_init
  pqos_init-Ready environment config l (is_down s) =
      Settled-Ready (pqos_init parts environment config (down s)).0
        (pqos_init parts environment config (down s)).1 (pqos_init-Settled environment config s)
  pqos_init-Ready environment none l (is_up cpu cap s) = is_up cpu cap s
  pqos_init-Ready environment (some config) l (is_up cpu cap s) =
      again-Ready config (allowed environment config.interface) cpu cap s

  pqos_fini-Ready : (l : Site S) → Ready l → Ready (pqos_fini parts l).1
  unfolding pqos_fini lock_exit
  pqos_fini-Ready l (is_down s) = is_down (parts.mutex_destroy (parts.close_lock s).1).1
  pqos_fini-Ready l (is_up cpu cap s) =
      is_down (parts.mutex_destroy (parts.close_lock (finish_services parts s).1).1).1

  pqos_cap_get-Ready :
      (wants_cap wants_cpu : Bool) (l : Site S)
      → Ready l
      → Ready (pqos_cap_get parts wants_cap wants_cpu l).1
  unfolding pqos_cap_get
  pqos_cap_get-Ready true wants_cpu l (is_down s) = is_down s
  pqos_cap_get-Ready true wants_cpu l (is_up cpu cap s) = is_up cpu cap s
  pqos_cap_get-Ready false true l (is_down s) = is_down s
  pqos_cap_get-Ready false true l (is_up cpu cap s) = is_up cpu cap s
  pqos_cap_get-Ready false false l r = r

  -- What a sequence of the three calls makes of a library.
  pub data Reach (l : Site S) : Site S → Type 0 where
    here : Reach l l
    inits :
        (k : Site S) (environment : Option (List ℕ)) (config : Option Config)
        → Reach l k
        → Reach l (pqos_init parts environment config k).1
    finishes : (k : Site S) → Reach l k → Reach l (pqos_fini parts k).1
    asks :
        (k : Site S) (wants_cap wants_cpu : Bool)
        → Reach l k
        → Reach l (pqos_cap_get parts wants_cap wants_cpu k).1

  -- After any sequence of set-ups, ends and queries, in any order and whatever they return, a library
  -- that began whole is set up, with its lock file and both tables, or has none of them; the mutex is
  -- free.
  pub Reach-Ready : (l k : Site S) → Ready l → Reach l k → Ready k
  Reach-Ready l k r here = r
  Reach-Ready l k r (inits j environment config p) =
      pqos_init-Ready environment config j (Reach-Ready l j r p)
  Reach-Ready l k r (finishes j p) = pqos_fini-Ready j (Reach-Ready l j r p)
  Reach-Ready l k r (asks j wants_cap wants_cpu p) =
      pqos_cap_get-Ready wants_cap wants_cpu j (Reach-Ready l j r p)
