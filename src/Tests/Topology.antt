-- ===== src/Tests/Topology.antt =====
-- The topology and capability queries on the bench.
use multi_resource_isolation.Prelude.{ℕ, ◌≡◌, refl, ◌↔◌, true, false, List, [], ◌∷◌, arith, some}
use multi_resource_isolation.Mask.{is_contiguous}
use multi_resource_isolation.Mask.Run.{run, is_contiguous_iff}
use multi_resource_isolation.Cpu.{get_sockets}
use multi_resource_isolation.Cpu.Ids.{IsIndex, get_sockets-IsIndex}
use multi_resource_isolation.Cpu.{sockets_of}
use multi_resource_isolation.Prelude.{none}
use multi_resource_isolation.Tests.Bench.{four_cores}

is_contiguous_iff_example : (is_contiguous 0x3c ≡ true) ↔ ((a : ℕ) × (b : ℕ) × (0x3c ≡ run a b))
is_contiguous_iff_example = is_contiguous_iff 0x3c (omega arith)

sockets_of_bench : get_sockets true four_cores ≡ some (0 ∷ 1 ∷ [])
unfolding get_sockets
sockets_of_bench = refl

get_sockets-IsIndex_example :
    ((ids : List ℕ) × (get_sockets true four_cores ≡ some ids)
      × IsIndex (sockets_of four_cores.cores) ids)
    × (get_sockets false four_cores ≡ none)
get_sockets-IsIndex_example = get_sockets-IsIndex four_cores
