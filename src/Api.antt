-- ===== src/Api.antt =====
-- lib/api.c, with the lock and the initialisation check of lib/cap.c that its functions share: the
-- state of the library, the functions behind its two interfaces, and how one of them is called.
pub mod Tables
pub mod Cores
pub mod Hw
pub mod Atomic
pub mod Calls
pub mod Locking
pub mod Outcome
pub mod Masks
pub mod Client
pub mod Mon
use multi_resource_isolation.Prelude.{
  ℕ, ◌+◌, Bool, true, false, not, ◌&&◌, if◌then◌else◌, List, [], ◌∷◌, Option, none, some,
}
use multi_resource_isolation.Types.{Retval, Result, ok, err, Action, fail}
use multi_resource_isolation.Cap.{Interface, msr, os}
use multi_resource_isolation.Alloc.L3.{L3ca}
use multi_resource_isolation.Alloc.L2.{L2ca}
use multi_resource_isolation.Alloc.Mba.{Mba}
use multi_resource_isolation.Alloc.Reset.{CdpConfig}

-- The functions `hw_*` of lib/allocation.c, or `os_*` of lib/os_allocation.c, on a state `S`. A table
-- of the caller and its size are one list, or a size where every entry is overwritten.
pub record Backend (S : Type 0) : Type 0 where
  pub assoc_set : ℕ → ℕ → Action S (Unit {0})
  pub assoc_get : ℕ → Action S ℕ
  pub assign : ℕ → List ℕ → Action S ℕ
  pub release : List ℕ → Action S (Unit {0})
  pub reset : CdpConfig → Action S (Unit {0})
  pub l3ca_set : ℕ → List L3ca → Action S (Unit {0})
  pub l3ca_get : ℕ → List L3ca → Action S (List L3ca)
  pub l3ca_min : Action S (Option ℕ)
  pub l2ca_set : ℕ → List L2ca → Action S (Unit {0})
  pub l2ca_get : ℕ → ℕ → Action S (List L2ca)
  pub l2ca_min : Action S (Option ℕ)
  pub mba_set : ℕ → List Mba → Bool → Action S (List Mba)
  pub mba_get : ℕ → ℕ → Action S (List Mba)

-- The functions `os_*` on tasks, which the MSR interface has no counterpart of. `pid_assoc` may
-- return NULL.
pub record Tasks (S : Type 0) : Type 0 where
  pub assoc_set_pid : ℕ → ℕ → Action S (Unit {0})
  pub assoc_get_pid : ℕ → Action S ℕ
  pub assign_pid : ℕ → List ℕ → Action S ℕ
  pub release_pid : List ℕ → Action S (Unit {0})
  pub pid_assoc : ℕ → Action S (List ℕ)

pub record Backends (S : Type 0) : Type 0 where
  pub hw : Backend S
  pub os : Backend S
  pub tasks : Tasks S

-- What a call does to the lock and to the interface behind it.
pub data Event : Type 0 where
  locked entered unlocked : Event

-- `m_init_done` of lib/cap.c, `m_interface` of lib/api.c, what the calls have done to the lock and
-- the interface, latest first, and the state that the interface works on.
pub record Library (S : Type 0) : Type 0 where
  pub init_done : Bool
  pub interface : Interface
  pub events : List Event
  pub state : S

-- `_pqos_check_init`: `m_init_done`, and what the caller expects.
abbrev pub check_init : Bool → Bool → Result (Unit {0})
check_init true false = err Retval.init
check_init false true = err Retval.init
check_init _ _ = ok tt

module _ {S : Type 0} where
  abbrev pub note : Event → Library S → Library S
  note e l = record l { events = e ∷ l.events }

  -- `_pqos_api_lock` and `_pqos_api_unlock`
  abbrev pub api_lock : Library S → Library S
  api_lock = note locked

  abbrev pub api_unlock : Library S → Library S
  api_unlock = note unlocked

  -- `ret = hw_...(...)` or `ret = os_...(...)`: the library enters the interface.
  abbrev pub enter : {A : Type 0} → Action S A → Action (Library S) A
  enter op l = let (r, s) = op l.state in (r, record l { events = entered ∷ l.events; state = s })

  -- `if (m_interface == PQOS_INTER_MSR) ... else ...`, on Linux.
  abbrev pub dispatch :
      {A : Type 0} → (b : Backends S) → (Backend S → Action S A) → Action (Library S) A
  dispatch b op l = elim l.interface [ msr ↦ enter (op b.hw) l | os ↦ enter (op b.os) l ]

  -- `if (m_interface != PQOS_INTER_OS) ... return PQOS_RETVAL_ERROR;`, and the call on tasks.
  abbrev pub on_tasks : {A : Type 0} → Action S A → Action (Library S) A
  on_tasks op l = elim l.interface [ msr ↦ (err Retval.error, l) | os ↦ enter op l ]

  -- What every function does around its call: it takes the lock, checks that the library is
  -- initialised, and drops the lock on each way out.
  unfoldable pub under_lock : {A : Type 0} → Action (Library S) A → Action (Library S) A
  under_lock body l =
      let l' = api_lock l in
      elim (check_init l'.init_done true) [
        | err e ↦ (err e, api_unlock l')
        | ok u ↦ let (r, l'') = body l' in (r, api_unlock l'')
      ]

  -- `if (...) return PQOS_RETVAL_PARAM;` before the lock is taken.
  abbrev pub refuse_if : {A : Type 0} → Bool → Action (Library S) A → Action (Library S) A
  refuse_if true body = fail Retval.param
  refuse_if false body = body

-- `api_init`, for the values of `interface` that C code may pass.
unfoldable pub api_init : {S : Type 0} → Option Interface → Action (Library S) (Unit {0})
api_init none l = (err Retval.param, l)
api_init (some i) l = (ok tt, record l { interface = i })
