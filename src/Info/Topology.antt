-- ===== src/Info/Topology.antt =====
-- The core table that `cpuinfo_build_topo` builds, and that its loops come to an end.
use multi_resource_isolation.Prelude.{ℕ, ◌+◌, Bool, ◌&&◌, ltb, leb}
use multi_resource_isolation.Info.{Processors}

module _ (h : Processors) where
  -- Is the processor one of `rounds` from `i` on?
  abbrev within : ℕ → ℕ → ℕ → Bool
  within rounds i cpu = leb i cpu && ltb cpu (i + rounds)
