-- ===== src/Cpu/Clusters.antt =====
-- A core is on the list of its L3 cluster.
use multi_resource_isolation.Prelude.{
  ℕ, ◌≡◌, sym, Bool-cases, inl, inr, ◌==◌, ==_iff, List, [], ◌∷◌, In, true,
}
use multi_resource_isolation.Types.{ok}
use multi_resource_isolation.Types.Bind.{ok_same}
use multi_resource_isolation.Cpu.{
  Coreinfo, Cpuinfo, get_clusterid, clusterid_in, matching, l3_cluster,
}

In-skip :
    (c k : ℕ) (x : Coreinfo) (cs : List Coreinfo)
    → In c (matching l3_cluster k cs)
    → In c (matching l3_cluster k (x ∷ cs))
unfolding matching
In-skip c k x cs h = elim (Bool-cases (k == x.l3_id)) [ inl e ↦ rw e (inr h) | inr e ↦ rw e h ]

clusterid_in-In :
    (cs : List Coreinfo) (c : ℕ) {k : ℕ}
    → clusterid_in cs c ≡ ok k
    → In c (matching l3_cluster k cs)
unfolding clusterid_in matching
clusterid_in-In [] c h = cc
clusterid_in-In (x ∷ cs) c {k} h = elim (Bool-cases (x.lcore == c)) [
  | inl e ↦
      let found : ok x.l3_id ≡ ok k = rw e at h in
      let here : (k == x.l3_id) ≡ true = (==_iff k x.l3_id).1 (sym (ok_same found)) in
      rw here (inl (sym ((==_iff x.lcore c).0 e)))
  | inr e ↦ In-skip c k x cs (clusterid_in-In cs c {k = k} (rw e at h))
]

pub get_clusterid-In :
    (cpu : Cpuinfo) (c : ℕ) {k : ℕ}
    → get_clusterid cpu c ≡ ok k
    → In c (matching l3_cluster k cpu.cores)
unfolding get_clusterid
get_clusterid-In cpu c {k} h = clusterid_in-In cpu.cores c {k = k} h
