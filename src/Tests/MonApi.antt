-- ===== src/Tests/MonApi.antt =====
-- A group started through the API, over an interface that gives it its cores.
use multi_resource_isolation.Prelude.{
  arith, bit_and, ◌≢◌, ℕ, ◌≡◌, refl, true, false, some, List, [], ◌∷◌,
}
use multi_resource_isolation.Types.{ok, Result}
use multi_resource_isolation.Cap.{msr}
use multi_resource_isolation.Mon.{MonData, zero_group}
use multi_resource_isolation.Api.{Library, under_lock}
use multi_resource_isolation.Api.Mon.{MonBackends, group_of, pqos_mon_start}
use multi_resource_isolation.Api.Mon.Groups.{Served, pqos_mon_start-Served}

abbrev watched : List ℕ → ℕ → MonData × ℕ → Result (Unit {0}) × (MonData × ℕ)
watched cores event (g, s) = (ok tt, (record g { cores = cores; event = event }, s))

abbrev plain : MonBackends ℕ
plain = record {
  hw_reset = λ s. (ok tt, s);
  hw_assoc_get = λ lcore out s. (ok 0, s);
  hw_start = λ cores event context s. watched cores event s;
  os_start = λ cores event context s. watched cores event s;
  hw_stop = λ s. (ok tt, s);
  os_stop = λ s. (ok tt, s);
  hw_poll = λ s. (ok tt, s);
  os_poll = λ s. (ok tt, s);
  os_start_pid = λ pid s. (ok tt, s);
}

abbrev fresh : Library (MonData × ℕ)
fresh = record { init_done = true; interface = msr; events = []; state = (zero_group, 0) }

pqos_mon_start-Served_example :
    ((group_of fresh).valid ≡ false)
    × (bit_and 9 15 ≢ 0)
    × (bit_and 9 0xFFFF3FF0 ≡ 0)
    × Served fresh (pqos_mon_start plain (some (2 ∷ 3 ∷ [])) 9 0 true fresh).1
unfolding pqos_mon_start under_lock
pqos_mon_start-Served_example =
    pqos_mon_start-Served plain (some (2 ∷ 3 ∷ [])) 9 0 true fresh (omega arith) refl
