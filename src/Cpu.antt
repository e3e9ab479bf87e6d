-- ===== src/Cpu.antt =====
-- The CPU topology of lib/pqos.h and its queries in lib/utils.c (`pqos_cpu_get_*`,
-- `pqos_cpu_check_core`). A pointer argument is never NULL here: the queries' first lines only
-- refuse NULL. `granted` says whether `malloc` gave the block that a query asks for.
pub mod Ids
pub mod Cores
pub mod Clusters
use multi_resource_isolation.Prelude.{
  ℕ, Bool, true, false, Option, none, some, List, [], ◌∷◌, ◌++◌, ◌==◌, if◌then◌else◌,
}
use multi_resource_isolation.Types.{Result, ok, err, Retval}

-- `struct pqos_coreinfo`
pub record Coreinfo : Type 0 where
  pub lcore : ℕ
  pub socket : ℕ
  pub l3_id : ℕ
  pub l2_id : ℕ

-- `struct pqos_cacheinfo`
pub record Cacheinfo : Type 0 where
  pub detected : Bool
  pub num_ways : ℕ
  pub num_sets : ℕ
  pub num_partitions : ℕ
  pub line_size : ℕ
  pub total_size : ℕ
  pub way_size : ℕ

-- `struct pqos_cpuinfo`: `num_cores` is the length of `cores`.
pub record Cpuinfo : Type 0 where
  pub l2 : Cacheinfo
  pub l3 : Cacheinfo
  pub cores : List Coreinfo

-- The inner loop of `pqos_cpu_get_sockets`: is the id on the list already?
unfoldable pub listed : ℕ → List ℕ → Bool
listed id [] = false
listed id (x ∷ xs) = if id == x then true else listed id xs

-- The outer loop, over the ids of the cores; a new id goes to the end of the list.
pub collect : List ℕ → List ℕ → List ℕ
collect [] ids = ids
collect (id ∷ rest) ids = collect rest (if listed id ids then ids else ids ++ (id ∷ []))

pub sockets_of : List Coreinfo → List ℕ
sockets_of [] = []
sockets_of (c ∷ cs) = c.socket ∷ sockets_of cs

pub l2ids_of : List Coreinfo → List ℕ
l2ids_of [] = []
l2ids_of (c ∷ cs) = c.l2_id ∷ l2ids_of cs

unfoldable pub get_sockets : Bool → Cpuinfo → Option (List ℕ)
unfolding sockets_of collect listed
get_sockets granted cpu = if granted then some (collect (sockets_of cpu.cores) []) else none

unfoldable pub get_l2ids : Bool → Cpuinfo → Option (List ℕ)
unfolding l2ids_of collect listed
get_l2ids granted cpu = if granted then some (collect (l2ids_of cpu.cores) []) else none

-- `TOPO_OBJ_*`
pub data TopoObj : Type 0 where
  socket_obj l2_cluster l3_cluster : TopoObj

abbrev pub topo_id : TopoObj → Coreinfo → ℕ
topo_id socket_obj c = c.socket
topo_id l2_cluster c = c.l2_id
topo_id l3_cluster c = c.l3_id

unfoldable pub matching : TopoObj → ℕ → List Coreinfo → List ℕ
matching type id [] = []
matching type id (c ∷ cs) =
    if id == topo_id type c then c.lcore ∷ matching type id cs else matching type id cs

-- No core found is NULL, as in the source.
abbrev pub non_empty : List ℕ → Option (List ℕ)
non_empty [] = none
non_empty (x ∷ xs) = some (x ∷ xs)

-- `__get_cores_per_topology_obj`
unfoldable pub get_cores_per_topology_obj : Bool → Cpuinfo → TopoObj → ℕ → Option (List ℕ)
unfolding matching
get_cores_per_topology_obj granted cpu type id =
    if granted then non_empty (matching type id cpu.cores) else none

unfoldable pub get_cores_l3id : Bool → Cpuinfo → ℕ → Option (List ℕ)
unfolding get_cores_per_topology_obj
get_cores_l3id granted cpu l3_id = get_cores_per_topology_obj granted cpu l3_cluster l3_id

pub cores_on : ℕ → List Coreinfo → List ℕ
cores_on socket [] = []
cores_on socket (c ∷ cs) =
    if c.socket == socket then c.lcore ∷ cores_on socket cs else cores_on socket cs

unfoldable pub get_cores : Bool → Cpuinfo → ℕ → Option (List ℕ)
unfolding cores_on
get_cores granted cpu socket = if granted then non_empty (cores_on socket cpu.cores) else none

unfoldable pub core_info_in : List Coreinfo → ℕ → Option Coreinfo
core_info_in [] lcore = none
core_info_in (c ∷ cs) lcore = if c.lcore == lcore then some c else core_info_in cs lcore

unfoldable pub get_core_info : Cpuinfo → ℕ → Option Coreinfo
unfolding core_info_in
get_core_info cpu lcore = core_info_in cpu.cores lcore

pub one_core_in : List Coreinfo → ℕ → Result ℕ
one_core_in [] socket = err Retval.error
one_core_in (c ∷ cs) socket = if c.socket == socket then ok c.lcore else one_core_in cs socket

unfoldable pub get_one_core : Cpuinfo → ℕ → Result ℕ
unfolding one_core_in
get_one_core cpu socket = one_core_in cpu.cores socket

pub one_by_l2id_in : List Coreinfo → ℕ → Result ℕ
one_by_l2id_in [] l2id = err Retval.error
one_by_l2id_in (c ∷ cs) l2id = if c.l2_id == l2id then ok c.lcore else one_by_l2id_in cs l2id

unfoldable pub get_one_by_l2id : Cpuinfo → ℕ → Result ℕ
unfolding one_by_l2id_in
get_one_by_l2id cpu l2id = one_by_l2id_in cpu.cores l2id

pub check_core_in : List Coreinfo → ℕ → Result (Unit {0})
check_core_in [] lcore = err Retval.error
check_core_in (c ∷ cs) lcore = if c.lcore == lcore then ok tt else check_core_in cs lcore

unfoldable pub check_core : Cpuinfo → ℕ → Result (Unit {0})
unfolding check_core_in
check_core cpu lcore = check_core_in cpu.cores lcore

pub socketid_in : List Coreinfo → ℕ → Result ℕ
socketid_in [] lcore = err Retval.error
socketid_in (c ∷ cs) lcore = if c.lcore == lcore then ok c.socket else socketid_in cs lcore

unfoldable pub get_socketid : Cpuinfo → ℕ → Result ℕ
unfolding socketid_in
get_socketid cpu lcore = socketid_in cpu.cores lcore

unfoldable pub clusterid_in : List Coreinfo → ℕ → Result ℕ
clusterid_in [] lcore = err Retval.error
clusterid_in (c ∷ cs) lcore = if c.lcore == lcore then ok c.l3_id else clusterid_in cs lcore

unfoldable pub get_clusterid : Cpuinfo → ℕ → Result ℕ
unfolding clusterid_in
get_clusterid cpu lcore = clusterid_in cpu.cores lcore
