-- ===== src/Init.antt =====
-- `pqos_init`, `pqos_fini` and `pqos_cap_get` of lib/cap.c, with the lock and the initialisation check.
-- What they call is a record of functions on the state of the rest of the library and the system.
pub mod During
pub mod Ready
use multi_resource_isolation.Prelude.{
  ℕ, zero, suc, ◌+◌, Bool, true, false, not, ◌||◌, ◌&&◌, ltb, leb, ◌==◌, if◌then◌else◌, List, [],
  ◌∷◌, map, Option, none, some,
}
use multi_resource_isolation.Types.{Retval, Result, ok, err, Action, pure, lift, fail, ◌>>=◌, ◌>>◌}
use multi_resource_isolation.Cpu.{Coreinfo, Cpuinfo}
use multi_resource_isolation.Cap.{Interface, msr, os, Cap}
use multi_resource_isolation.Api.{check_init}
use multi_resource_isolation.Mon.Assoc.{keep_last}
use multi_resource_isolation.Discover.{starts_with}

-- `struct pqos_config`; the log's fields are numbers, and `interface` is `none` where it is neither of
-- the two values.
pub record Config : Type 0 where
  pub fd_log : ℕ
  pub callback_log : ℕ
  pub context_log : ℕ
  pub verbose : ℕ
  pub interface : Option Interface

-- The functions that the set-up calls. `cpuinfo_fini` says whether it returned 0. `lockf` is not here:
-- its failure is only logged.
pub record Parts (S : Type 0) : Type 0 where
  pub open_lock : S → Bool × S
  pub mutex_init : S → Bool × S
  pub close_lock : S → Bool × S
  pub mutex_destroy : S → Bool × S
  pub log_init : Config → Action S (Unit {0})
  pub log_fini : Action S (Unit {0})
  pub cpuinfo_init : Action S (Option Cpuinfo)
  pub cpuinfo_fini : S → Bool × S
  pub machine_init : ℕ → Action S (Unit {0})
  pub machine_fini : Action S (Unit {0})
  pub discover_capabilities : Cpuinfo → Action S Cap
  pub discover_os_capabilities : Option Interface → Cap → S → Result (Unit {0}) × Cap × S
  pub log_hw_caps : Cap → Action S (Unit {0})
  pub utils_init : Option Interface → Action S (Unit {0})
  pub api_init : Option Interface → Action S (Unit {0})
  pub mon_init : Cpuinfo → Cap → Config → Action S (Unit {0})
  pub alloc_init : Cpuinfo → Cap → Config → Action S (Unit {0})
  pub mon_fini : S → S
  pub alloc_fini : S → S

-- `m_init_done`, whether `m_apilock` is a descriptor, whether the mutex is held, `m_cpu` and `m_cap`,
-- and the state of the rest.
pub record Site (S : Type 0) : Type 0 where
  pub init_done : Bool
  pub lock_open : Bool
  pub held : Bool
  pub cpu : Option Cpuinfo
  pub cap : Option Cap
  pub rest : S

-- `strncasecmp(text, name, n) == 0`, for a name of `n` small letters.
abbrev pub to_lower : ℕ → ℕ
to_lower c = if leb 65 c && leb c 90 then c + 32 else c

abbrev pub begins : List ℕ → List ℕ → Bool
begins name text = starts_with name (map to_lower text)

-- "os" and "msr"
abbrev pub os_text : List ℕ
os_text = 111 ∷ 115 ∷ []

abbrev pub msr_text : List ℕ
msr_text = 109 ∷ 115 ∷ 114 ∷ []

abbrev pub is_os : Option Interface → Bool
is_os (some os) = true
is_os _ = false

abbrev pub is_msr : Option Interface → Bool
is_msr (some msr) = true
is_msr _ = false

-- What RDT_IFACE allows.
unfoldable pub allowed : Option (List ℕ) → Option Interface → Bool
allowed none interface = true
allowed (some environment) interface =
    if begins os_text environment
    then is_os interface
    else if begins msr_text environment
    then is_msr interface
    else false

-- The highest logical core.
unfoldable pub max_core : List Coreinfo → ℕ → ℕ
max_core [] m = m
max_core (c ∷ cs) m = max_core cs (if ltb m c.lcore then c.lcore else m)

-- Only PQOS_RETVAL_ERROR ends the set-up.
abbrev pub unless_error : Result (Unit {0}) → Result (Unit {0})
unless_error (err Retval.error) = err Retval.error
unless_error _ = ok tt

-- The two `switch` statements on the codes of `pqos_mon_init` and `pqos_alloc_init`, and the test that
-- follows: the code of the second is that of `pqos_init`, but for an ERROR where both have failed.
abbrev pub verdict : Result (Unit {0}) → Result (Unit {0}) → Result (Unit {0})
verdict mon (ok u) = ok tt
verdict mon (err Retval.busy) = err Retval.busy
verdict (ok u) (err e) = err e
verdict (err x) (err e) = err Retval.error

abbrev pub cpu_or_error : Option Cpuinfo → Result Cpuinfo
cpu_or_error none = err Retval.error
cpu_or_error (some cpu) = ok cpu

module _ {S : Type 0} where
  -- A call that leaves the variables of lib/cap.c alone.
  abbrev pub on_rest : {A : Type 0} → Action S A → Action (Site S) A
  on_rest x l = let (r, s) = x l.rest in (r, record l { rest = s })

  -- `cpuinfo_init(&m_cpu)`, from what it returns: it writes `m_cpu` where it returns 0. Then
  -- `if (ret != 0 || m_cpu == NULL) ... ret = PQOS_RETVAL_ERROR;`
  abbrev pub store_cpu : Result (Option Cpuinfo) → S → Site S → Result Cpuinfo × Site S
  store_cpu (ok found) s l = (cpu_or_error found, record l { cpu = found; rest = s })
  store_cpu (err e) s l = (err Retval.error, record l { rest = s })

  -- `discover_capabilities(&m_cap, m_cpu)`, which writes `m_cap` where it returns OK.
  abbrev pub store_cap : Result Cap → S → Site S → Result Cap × Site S
  store_cap (ok cap) s l = (ok cap, record l { cap = some cap; rest = s })
  store_cap (err e) s l = (err e, record l { rest = s })

  -- A `goto` to the label that undoes what came before.
  abbrev pub undo_after :
      Action S (Unit {0}) → Result (Unit {0}) → Site S → Result (Unit {0}) × Site S
  undo_after fini (ok u) l = (ok tt, l)
  undo_after fini (err e) l = (err e, record l { rest = (fini l.rest).1 })

  abbrev pub or_fini : Action S (Unit {0}) → Action (Site S) (Unit {0}) → Action (Site S) (Unit {0})
  or_fini fini x l = let (r, l') = x l in undo_after fini r l'

module _ {S : Type 0} (parts : Parts S) where
  abbrev pub cpuinfo : Action (Site S) Cpuinfo
  cpuinfo l = let (r, s) = parts.cpuinfo_init l.rest in store_cpu r s l

  abbrev pub capabilities : Cpuinfo → Action (Site S) Cap
  capabilities cpu l = let (r, s) = parts.discover_capabilities cpu l.rest in store_cap r s l

  -- `discover_os_capabilities` changes the table that `m_cap` points to.
  abbrev pub os_capabilities : Config → Cap → Action (Site S) Cap
  os_capabilities config cap l =
      let (r, cap', s) = parts.discover_os_capabilities config.interface cap l.rest in
      (
        elim (unless_error r) [ ok u ↦ ok cap' | err e ↦ err e ],
        record l { cap = some cap'; rest = s },
      )

  abbrev pub hw_caps : Config → Cap → Action S (Unit {0})
  hw_caps config cap s = elim (is_os config.interface) [
    | true ↦ let (r, s') = parts.log_hw_caps cap s in (unless_error r, s')
    | false ↦ (ok tt, s)
  ]

  abbrev pub features : Config → Cpuinfo → Cap → Action S (Unit {0})
  features config cpu cap s =
      let (mon, s') = parts.mon_init cpu cap config s in
      let (alloc, s'') = parts.alloc_init cpu cap config s' in (verdict mon alloc, s'')

  -- From `discover_capabilities` on.
  unfoldable pub with_machine : Config → Cpuinfo → Action (Site S) (Unit {0})
  with_machine config cpu = do
    found ← capabilities cpu
    cap ← os_capabilities config found
    on_rest (hw_caps config cap)
    on_rest (parts.utils_init config.interface)
    on_rest (parts.api_init config.interface)
    on_rest (features config cpu cap)

  unfoldable pub with_cpu : Config → Cpuinfo → Action (Site S) (Unit {0})
  unfolding with_machine max_core
  with_cpu config cpu = do
    on_rest (parts.machine_init (max_core cpu.cores 0))
    or_fini parts.machine_fini (with_machine config cpu)

  -- `(void) cpuinfo_fini()`
  abbrev pub no_cpuinfo : Action S (Unit {0})
  no_cpuinfo s = (ok tt, (parts.cpuinfo_fini s).1)

  unfoldable pub with_log : Config → Action (Site S) (Unit {0})
  unfolding with_cpu
  with_log config = do cpu ← cpuinfo; or_fini no_cpuinfo (with_cpu config cpu)

  unfoldable pub services : Config → Action (Site S) (Unit {0})
  unfolding with_log
  services config = do on_rest (parts.log_init config); or_fini parts.log_fini (with_log config)

  -- `_pqos_api_init`, from the results of `pthread_mutex_init` and `open`.
  abbrev pub after_mutex : Bool → Site S → S → Bool × Site S
  after_mutex true l s = (true, record l { lock_open = true; rest = s })
  after_mutex false l s = (false, record l { rest = (parts.close_lock s).1 })

  abbrev pub after_open : Bool → Site S → S → Bool × Site S
  after_open false l s = (false, record l { rest = s })
  after_open true l s = let (made, s') = parts.mutex_init s in after_mutex made l s'

  unfoldable pub lock_init : Site S → Bool × Site S
  lock_init l = elim l.lock_open [
    | true ↦ (false, l)
    | false ↦ let (opened, s) = parts.open_lock l.rest in after_open opened l s
  ]

  -- `_pqos_api_exit`
  unfoldable pub lock_exit : Site S → Bool × Site S
  lock_exit l =
      let (closed, s) = parts.close_lock l.rest in
      let (destroyed, s') = parts.mutex_destroy s in
      (closed && destroyed, record l { lock_open = false; rest = s' })

  abbrev pub lock : Site S → Site S
  lock l = record l { held = true }

  abbrev pub unlock : Site S → Site S
  unlock l = record l { held = false }

  -- From the label `init_error` on: `m_cpu` and `m_cap` go back to NULL on an error.
  unfoldable pub conclude : Result (Unit {0}) → Site S → Result (Unit {0}) × Site S
  unfolding lock_exit
  conclude (ok u) l = (ok tt, unlock (record l { init_done = true }))
  conclude (err e) l = (err e, (lock_exit (unlock (record l { cpu = none; cap = none }))).1)

  -- What follows `_pqos_api_lock` in `pqos_init`.
  unfoldable pub init_locked : Config → Action (Site S) (Unit {0})
  unfolding services conclude
  init_locked config l = elim (check_init l.init_done false) [
    | err e ↦ (err e, unlock l)
    | ok u ↦ let (r, l') = services config l in conclude r l'
  ]

  abbrev pub after_lock_init : Config → Bool → Site S → Result (Unit {0}) × Site S
  after_lock_init config false l = (err Retval.error, l)
  after_lock_init config true l = init_locked config (lock l)

  abbrev pub if_allowed : Config → Bool → Site S → Result (Unit {0}) × Site S
  if_allowed config false l = (err Retval.error, l)
  if_allowed config true l = let (made, l') = lock_init l in after_lock_init config made l'

  -- `environment` is RDT_IFACE, and no configuration a NULL pointer.
  unfoldable pub pqos_init : Option (List ℕ) → Option Config → Action (Site S) (Unit {0})
  unfolding allowed lock_init init_locked
  pqos_init environment none l = (err Retval.param, l)
  pqos_init environment (some config) l = if_allowed config (allowed environment config.interface) l

  -- `ret = cpuinfo_fini(); if (ret != 0) retval = PQOS_RETVAL_ERROR;`, from whether `ret` is 0.
  abbrev pub cpu_code : Bool → Result (Unit {0})
  cpu_code true = ok tt
  cpu_code false = err Retval.error

  -- The codes of the three calls: the last that is not OK.
  unfoldable pub finish_services : S → Result (Unit {0}) × S
  finish_services s =
      let (gone, s1) = parts.cpuinfo_fini (parts.alloc_fini (parts.mon_fini s)) in
      let (r', s2) = parts.machine_fini s1 in
      let (r'', s3) = parts.log_fini s2 in (keep_last (keep_last (cpu_code gone) r') r'', s3)

  abbrev pub exit_code : Bool → Result (Unit {0}) → Result (Unit {0})
  exit_code closed retval = if closed then retval else err Retval.error

  unfoldable pub pqos_fini : Action (Site S) (Unit {0})
  unfolding finish_services lock_exit
  pqos_fini l0 =
      let l = lock l0 in
      elim (check_init l.init_done true) [
        | err e ↦ (err e, (lock_exit (unlock l)).1)
        | ok u ↦
            let (retval, s) = finish_services l.rest in
            let (closed, l') =
              lock_exit
                (unlock (record l { cpu = none; cap = none; init_done = false; rest = s })) in
            (exit_code closed retval, l')
      ]

  -- The outputs are what `m_cap` and `m_cpu` are; the arguments say which pointers are not NULL.
  unfoldable pub pqos_cap_get : Bool → Bool → Action (Site S) (Option Cap × Option Cpuinfo)
  pqos_cap_get wants_cap wants_cpu l0 = elim (wants_cap || wants_cpu) [
    | false ↦ (err Retval.param, l0)
    | true ↦
        let l = lock l0 in
        elim (check_init l.init_done true) [
          | err e ↦ (err e, unlock l)
          | ok u ↦
              (ok (if wants_cap then l.cap else none, if wants_cpu then l.cpu else none), unlock l)
        ]
  ]
