-- ===== src/Api/Calls.antt =====
-- One call of lib/api.c on associations, classes, tables or resets, whichever it is, without its
-- results but for the code it returns. `pqos_pid_get_pid_assoc`, which returns a table or NULL and no
-- code, and the calls on monitoring are not among them.
use multi_resource_isolation.Prelude.{ℕ, Bool, List, Option}
use multi_resource_isolation.Types.{Result, ok, err, Action}
use multi_resource_isolation.Alloc.L3.{L3ca}
use multi_resource_isolation.Alloc.L2.{L2ca}
use multi_resource_isolation.Alloc.Mba.{Mba}
use multi_resource_isolation.Alloc.Reset.{CdpConfig}
use multi_resource_isolation.Api.{Backends, Library}
use multi_resource_isolation.Api.Tables.{
  pqos_l3ca_set, pqos_l3ca_get, pqos_l3ca_get_min_cbm_bits, pqos_l2ca_set, pqos_l2ca_get,
  pqos_l2ca_get_min_cbm_bits, pqos_mba_set, pqos_mba_get,
}
use multi_resource_isolation.Api.Cores.{
  pqos_alloc_assoc_set, pqos_alloc_assoc_get, pqos_alloc_assign, pqos_alloc_release,
  pqos_alloc_reset, pqos_alloc_assoc_set_pid, pqos_alloc_assoc_get_pid, pqos_alloc_assign_pid,
  pqos_alloc_release_pid,
}

pub data Call : Type 0 where
  assoc_set : ℕ → ℕ → Call
  assoc_get : ℕ → Bool → Call
  assign : ℕ → Option (List ℕ) → Bool → Call
  release : Option (List ℕ) → Call
  reset : Option CdpConfig → Call
  assoc_set_pid : ℕ → ℕ → Call
  assoc_get_pid : ℕ → Bool → Call
  assign_pid : ℕ → Option (List ℕ) → Bool → Call
  release_pid : Option (List ℕ) → Call
  l3ca_set : ℕ → Option (List L3ca) → Call
  l3ca_get : ℕ → Bool → Option (List L3ca) → Call
  l3ca_min : Bool → Call
  l2ca_set : ℕ → Option (List L2ca) → Call
  l2ca_get : ℕ → ℕ → Bool → Call
  l2ca_min : Bool → Call
  mba_set : ℕ → Option (List Mba) → Bool → Call
  mba_get : ℕ → ℕ → Bool → Call

-- The code alone.
abbrev pub code_of : {A : Type 0} → Result A → Result (Unit {0})
code_of (ok a) = ok tt
code_of (err e) = err e

abbrev pub coded : {S A : Type 0} → Action S A → Action S (Unit {0})
coded x s = let (r, s') = x s in (code_of r, s')

module _ {S : Type 0} (b : Backends S) where
  unfoldable pub perform : Call → Action (Library S) (Unit {0})
  perform (assoc_set lcore class_id) = coded (pqos_alloc_assoc_set b lcore class_id)
  perform (assoc_get lcore out) = coded (pqos_alloc_assoc_get b lcore out)
  perform (assign technology cores out) = coded (pqos_alloc_assign b technology cores out)
  perform (release cores) = coded (pqos_alloc_release b cores)
  perform (reset cfg) = coded (pqos_alloc_reset b cfg)
  perform (assoc_set_pid task class_id) = coded (pqos_alloc_assoc_set_pid b task class_id)
  perform (assoc_get_pid task out) = coded (pqos_alloc_assoc_get_pid b task out)
  perform (assign_pid technology tasks out) = coded (pqos_alloc_assign_pid b technology tasks out)
  perform (release_pid tasks) = coded (pqos_alloc_release_pid b tasks)
  perform (l3ca_set socket ca) = coded (pqos_l3ca_set b socket ca)
  perform (l3ca_get socket out ca) = coded (pqos_l3ca_get b socket out ca)
  perform (l3ca_min out) = coded (pqos_l3ca_get_min_cbm_bits b out)
  perform (l2ca_set l2id ca) = coded (pqos_l2ca_set b l2id ca)
  perform (l2ca_get l2id max_num_ca out) = coded (pqos_l2ca_get b l2id max_num_ca out)
  perform (l2ca_min out) = coded (pqos_l2ca_get_min_cbm_bits b out)
  perform (mba_set socket requested wanted) = coded (pqos_mba_set b socket requested wanted)
  perform (mba_get socket max_num_cos out) = coded (pqos_mba_get b socket max_num_cos out)
