-- ===== src/Mon/Rmid.antt =====
-- The choice of an RMID in lib/monitoring.c: `rmid_alloc`.
pub mod Limit
pub mod Search
pub mod Free
use multi_resource_isolation.Prelude.{
  ℕ, zero, suc, Bool, true, false, not, ◌||◌, ◌&&◌, bit_or, ltb, ◌==◌, if◌then◌else◌, List, [], ◌∷◌,
  Option, none, some,
}
use multi_resource_isolation.Types.{
  Retval, Result, ok, err, Action, pure, lift, fail_if, ◌>>=◌, ◌>>◌,
}
use multi_resource_isolation.Msr.{Msr}
use multi_resource_isolation.Cpu.{listed, get_cores_l3id}
use multi_resource_isolation.Cap.{Monitor, mon_type, get_type, as_mon}
use multi_resource_isolation.Alloc.{Platform}
use multi_resource_isolation.Mon.{event_value, has}
use multi_resource_isolation.Mon.Assoc.{mon_assoc_get}

-- The loop over the events of the capability: `mask_found` and `max_rmid`.
unfoldable pub scan_events : ℕ → List Monitor → ℕ → ℕ → ℕ × ℕ
scan_events event [] mask_found max_rmid = (mask_found, max_rmid)
scan_events event (e ∷ es) mask_found max_rmid =
    scan_events event es
      (if has event (event_value e.type)
        then bit_or mask_found (event_value e.type)
        else mask_found)
      (if has event (event_value e.type) && ltb e.max_rmid max_rmid then e.max_rmid else max_rmid)

-- `if (event != mask_found || max_rmid == 0) return PQOS_RETVAL_ERROR;`
abbrev pub checked_limit : ℕ → ℕ × ℕ → Result ℕ
checked_limit event (mask_found, max_rmid) =
    if not (event == mask_found) || max_rmid == 0 then err Retval.error else ok max_rmid

-- The first half of `rmid_alloc`: the number of RMIDs that every event of the mask has. `rmid_max` is
-- the global `m_rmid_max`.
unfoldable pub rmid_limit : Platform → ℕ → ℕ → Result ℕ
unfolding scan_events
rmid_limit p rmid_max event = elim (as_mon (get_type p.interface p.cap mon_type)) [
  | err e ↦ err e
  | ok mon ↦ checked_limit event (scan_events event mon.events 0 rmid_max)
]

-- `for (i = max_rmid; i > 0; i--)`
unfoldable pub find_rmid : List ℕ → ℕ → Result ℕ
find_rmid rmid_list zero = err Retval.error
find_rmid rmid_list (suc i) = if listed i rmid_list then find_rmid rmid_list i else ok i

-- A NULL list of cores.
abbrev pub or_error : {A : Type 0} → Option A → Result A
or_error none = err Retval.error
or_error (some a) = ok a

module _ (m : Msr) where
  unfoldable pub read_rmids : List ℕ → Action m.State (List ℕ)
  read_rmids [] = pure []
  read_rmids (lcore ∷ core_list) = do
    rmid ← mon_assoc_get m lcore
    rest ← read_rmids core_list
    pure (rmid ∷ rest)

  -- `cores` and `rmids` say whether the memory for the two lists is granted.
  unfoldable pub rmid_alloc : Platform → ℕ → Bool → Bool → ℕ → ℕ → Action m.State ℕ
  rmid_alloc p rmid_max cores rmids cluster event = do
    max_rmid ← lift (rmid_limit p rmid_max event)
    core_list ← lift (or_error (get_cores_l3id cores p.cpu cluster))
    fail_if (not rmids) Retval.resource
    rmid_list ← read_rmids core_list
    lift (find_rmid rmid_list max_rmid)
