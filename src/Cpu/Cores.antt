-- ===== src/Cpu/Cores.antt =====
-- The searches for cores in lib/utils.c agree with one another.
use native.Mathlib.Decide.{ℕ_discrete}
use multi_resource_isolation.Prelude.{
  inl, inr, ℕ, ◌≡◌, refl, inl, inr, List, [], ◌∷◌, Bool, true, Option, none, some, arith, In,
}
use multi_resource_isolation.Types.{Result, ok, err, Retval}
use multi_resource_isolation.Cpu.{
  Coreinfo, Cpuinfo, get_cores, cores_on, non_empty, get_cores_per_topology_obj, matching,
  socket_obj, get_one_core, one_core_in, get_one_by_l2id, one_by_l2id_in, l2_cluster, get_core_info,
  core_info_in, check_core, check_core_in, get_socketid, socketid_in, get_clusterid, clusterid_in,
}

-- The first entry of a list of cores, or the error of the searches for one core.
abbrev pub first_of_list : Option (List ℕ) → Result ℕ
first_of_list none = err Retval.error
first_of_list (some []) = err Retval.error
first_of_list (some (x ∷ xs)) = ok x

cores_on-eq-matching :
    (socket : ℕ) (cs : List Coreinfo) → cores_on socket cs ≡ matching socket_obj socket cs
unfolding cores_on matching
cores_on-eq-matching socket [] = refl
cores_on-eq-matching socket (c ∷ cs) = ground (arith, cores_on-eq-matching socket cs)

one_core_in-eq-first :
    (cs : List Coreinfo) (socket : ℕ)
    → one_core_in cs socket ≡ first_of_list (non_empty (cores_on socket cs))
unfolding one_core_in cores_on
one_core_in-eq-first [] socket = refl
one_core_in-eq-first (c ∷ cs) socket = ground (arith, one_core_in-eq-first cs socket)

one_by_l2id_in-eq-first :
    (cs : List Coreinfo) (l2id : ℕ)
    → one_by_l2id_in cs l2id ≡ first_of_list (non_empty (matching l2_cluster l2id cs))
unfolding one_by_l2id_in matching
one_by_l2id_in-eq-first [] l2id = refl
one_by_l2id_in-eq-first (c ∷ cs) l2id = ground (arith, one_by_l2id_in-eq-first cs l2id)

-- The two ways to list the cores of a socket agree, and `pqos_cpu_get_one_core` and
-- `pqos_cpu_get_one_by_l2id` find the first core of the list, or fail where it is NULL.
core_searches_agree :
    (cpu : Cpuinfo) (id : ℕ) (granted : Bool)
    → (get_cores granted cpu id ≡ get_cores_per_topology_obj granted cpu socket_obj id)
      × (get_one_core cpu id ≡ first_of_list (get_cores true cpu id))
      × (get_one_by_l2id cpu id ≡ first_of_list (get_cores_per_topology_obj true cpu l2_cluster id))
unfolding get_cores get_cores_per_topology_obj get_one_core get_one_by_l2id
core_searches_agree cpu id granted = ground (
  arith,
  cores_on-eq-matching id cpu.cores,
  one_core_in-eq-first cpu.cores id,
  one_by_l2id_in-eq-first cpu.cores id,
)

-- What a search by `lcore` returns, told from the core's entry.
abbrev pub from_entry : {A : Type 0} → (Coreinfo → A) → Option Coreinfo → Result A
from_entry f none = err Retval.error
from_entry f (some c) = ok (f c)

check_core_in-eq :
    (cs : List Coreinfo) (l : ℕ) → check_core_in cs l ≡ from_entry (λ c. tt) (core_info_in cs l)
unfolding check_core_in core_info_in
check_core_in-eq [] l = refl
check_core_in-eq (c ∷ cs) l = ground (arith, check_core_in-eq cs l)

socketid_in-eq :
    (cs : List Coreinfo) (l : ℕ) → socketid_in cs l ≡ from_entry (λ c. c.socket) (core_info_in cs l)
unfolding socketid_in core_info_in
socketid_in-eq [] l = refl
socketid_in-eq (c ∷ cs) l = ground (arith, socketid_in-eq cs l)

clusterid_in-eq :
    (cs : List Coreinfo) (l : ℕ) → clusterid_in cs l ≡ from_entry (λ c. c.l3_id) (core_info_in cs l)
unfolding clusterid_in core_info_in
clusterid_in-eq [] l = refl
clusterid_in-eq (c ∷ cs) l = ground (arith, clusterid_in-eq cs l)

-- The four lookups by logical core agree: `pqos_cpu_check_core`, `pqos_cpu_get_socketid` and
-- `pqos_cpu_get_clusterid` succeed exactly where `pqos_cpu_get_core_info` finds an entry, and read
-- their result from that entry.
core_lookups_agree :
    (cpu : Cpuinfo) (lcore : ℕ)
    → (check_core cpu lcore ≡ from_entry (λ c. tt) (get_core_info cpu lcore))
      × (get_socketid cpu lcore ≡ from_entry (λ c. c.socket) (get_core_info cpu lcore))
      × (get_clusterid cpu lcore ≡ from_entry (λ c. c.l3_id) (get_core_info cpu lcore))
unfolding get_core_info check_core get_socketid get_clusterid
core_lookups_agree cpu l =
    (check_core_in-eq cpu.cores l, socketid_in-eq cpu.cores l, clusterid_in-eq cpu.cores l)

core_info_in-In :
    (cs : List Coreinfo) (l : ℕ) {c : Coreinfo}
    → core_info_in cs l ≡ some c
    → In c cs × (c.lcore ≡ l)
unfolding core_info_in
core_info_in-In [] l e = cc
core_info_in-In (d ∷ cs) l {c} e = ground (arith, core_info_in-In cs l {c = c})

-- An entry that is found is one of the machine's, and has the core's number.
pub get_core_info-In :
    (cpu : Cpuinfo) (l : ℕ) {c : Coreinfo}
    → get_core_info cpu l ≡ some c
    → In c cpu.cores × (c.lcore ≡ l)
unfolding get_core_info
get_core_info-In cpu l e = core_info_in-In cpu.cores l e

one_core_in-In :
    (cs : List Coreinfo) (socket : ℕ) {l : ℕ}
    → one_core_in cs socket ≡ ok l
    → (c : Coreinfo) × In c cs × (c.socket ≡ socket) × (c.lcore ≡ l)
unfolding one_core_in
one_core_in-In [] socket e = cc
one_core_in-In (c ∷ cs) socket {l} e = elim (ℕ_discrete c.socket socket) [
  | yes here ↦ (c, inl refl, here, ground arith)
  | no other ↦ let (d, i, p, q) = one_core_in-In cs socket (ground arith) in (d, inr i, p, q)
]

-- The core that is found stands on the socket asked for.
pub get_one_core-In :
    (cpu : Cpuinfo) (socket : ℕ) {l : ℕ}
    → get_one_core cpu socket ≡ ok l
    → (c : Coreinfo) × In c cpu.cores × (c.socket ≡ socket) × (c.lcore ≡ l)
unfolding get_one_core
get_one_core-In cpu socket e = one_core_in-In cpu.cores socket e
