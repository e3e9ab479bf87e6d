-- ===== src/Mon/Rmid/Free.antt =====
-- `rmid_alloc` finds the highest RMID that no core of the cluster has, and finds one where there are
-- more RMIDs than cores.
use multi_resource_isolation.Prelude.{
  ℕ, ◌<◌, ◌≡◌, ◌≢◌, refl, sym, ap, ap₂, ◌∙◌, Bool, true, false, not, arith, ◌==◌, ==_iff,
  false≢true, if◌then◌else◌, List, [], ◌∷◌, Bool-cases, none, inl, inr, length, In,
}
use multi_resource_isolation.Types.{Retval, ok, err, Action, pure, lift, fail_if, ◌>>=◌, ◌>>◌}
use multi_resource_isolation.Types.Bind.{ok_next, bind_of_ok, ok_same}
use multi_resource_isolation.Msr.{Msr, Registers, Accepts, msr_assoc}
use multi_resource_isolation.Msr.Keeps.{Keeps, bind-Keeps, fail_if-Keeps}
use multi_resource_isolation.Cpu.{listed, get_cores_l3id, matching, l3_cluster, non_empty}
use multi_resource_isolation.Alloc.{Platform}
use multi_resource_isolation.Mon.Assoc.{rmid_of, mon_assoc_get}
use multi_resource_isolation.Mon.Assoc.Field.{
  rmid_in, mon_assoc_get_value, mon_assoc_get-Keeps, mon_assoc_get_total,
}
use multi_resource_isolation.Mon.Rmid.{rmid_limit, find_rmid, or_error, read_rmids, rmid_alloc}
use multi_resource_isolation.Mon.Rmid.Search.{find_rmid_lem, find_rmid_total}

module _ (m : Msr) (g : Registers m) where
  -- The RMIDs of some cores.
  abbrev pub rmids_in : m.State → List ℕ → List ℕ
  rmids_in s [] = []
  rmids_in s (c ∷ cs) = rmid_in g s c ∷ rmids_in s cs

  rmids_in_same :
      (s t : m.State) (cs : List ℕ)
      → ((c r : ℕ) → g.peek s c r ≡ g.peek t c r)
      → rmids_in s cs ≡ rmids_in t cs
  rmids_in_same s t [] h = refl
  rmids_in_same s t (c ∷ cs) h =
      ap₂ (λ v rest. rmid_of v ∷ rest) (h c msr_assoc) (rmids_in_same s t cs h)

  not_listed :
      (s : m.State) (r : ℕ) (cs : List ℕ)
      → listed r (rmids_in s cs) ≡ false
      → (d : ℕ) → In d cs
      → rmid_in g s d ≢ r
  unfolding listed
  not_listed s r [] h d i e = i
  not_listed s r (c ∷ cs) h d (inl same) e =
      let here : rmid_in g s c ≡ r = ap (λ x. rmid_in g s x) (sym same) ∙ e in
      absurd (ground (arith, here))
  not_listed s r (c ∷ cs) h d (inr i) e = not_listed s r cs (ground arith) d i e

  pub read_rmids-Keeps : (cs : List ℕ) {reg : ℕ} → Keeps g reg (read_rmids m cs)
  unfolding read_rmids
  read_rmids-Keeps [] = λ s c. refl
  read_rmids-Keeps (x ∷ cs) =
      bind-Keeps g (mon_assoc_get m x) (λ rmid. read_rmids m cs >>= λ rest. pure (rmid ∷ rest))
        (mon_assoc_get-Keeps m g x)
        (λ rmid.
          bind-Keeps g (read_rmids m cs) (λ rest. pure (rmid ∷ rest)) (read_rmids-Keeps cs)
            (λ rest s c. refl))

  read_rmids_lem :
      (cs : List ℕ) (s : m.State) {out : List ℕ}
      → (read_rmids m cs s).0 ≡ ok out
      → out ≡ rmids_in s cs
  unfolding read_rmids
  read_rmids_lem [] s h = sym (ok_same h)
  read_rmids_lem (x ∷ cs) s {out} h =
      let (rmid, got, on) =
        ok_next (mon_assoc_get m x) (λ v. read_rmids m cs >>= λ rest. pure (v ∷ rest)) s h in
      let s' = (mon_assoc_get m x s).1 in
      let (rest, more, end) = ok_next (read_rmids m cs) (λ v. pure (rmid ∷ v)) s' on in
      sym (ok_same end)
      ∙ ap₂ (λ v vs. v ∷ vs) (mon_assoc_get_value m g x s got)
          (read_rmids_lem cs s' {out = rest} more
            ∙ rmids_in_same s' s cs (λ c r. mon_assoc_get-Keeps m g x s c))

  -- After the limit `rmid_alloc` has only read.
  choose : List ℕ → ℕ → Action m.State ℕ
  choose cs n = read_rmids m cs >>= λ rmids. lift (find_rmid rmids n)

  with_list : Platform → Bool → Bool → ℕ → ℕ → Action m.State ℕ
  unfolding choose
  with_list p b d cluster n = lift (or_error (get_cores_l3id b p.cpu cluster)) >>= λ cs.
      fail_if (not d) Retval.resource >> choose cs n

  pub rmid_alloc-Keeps :
      (p : Platform) (rmid_max : ℕ) (b d : Bool) (cluster event : ℕ) {reg : ℕ}
      → Keeps g reg (rmid_alloc m p rmid_max b d cluster event)
  unfolding rmid_alloc with_list
  rmid_alloc-Keeps p rmid_max b d cluster event =
      bind-Keeps g (lift (rmid_limit p rmid_max event)) (with_list p b d cluster) (λ s c. refl)
        (λ n.
          bind-Keeps g (lift (or_error (get_cores_l3id b p.cpu cluster)))
            (λ cs. fail_if (not d) Retval.resource >> choose cs n) (λ s c. refl)
            (λ cs.
              bind-Keeps g (fail_if (not d) Retval.resource) (λ u. choose cs n)
                (fail_if-Keeps g (not d) Retval.resource)
                (λ u.
                  bind-Keeps g (read_rmids m cs) (λ rmids. lift (find_rmid rmids n))
                    (read_rmids-Keeps cs) (λ rmids s c. refl))))

  -- The list of cores, where it is not NULL.
  cores_of_list :
      (cores : List ℕ) (b : Bool) {cs : List ℕ}
      → or_error (if b then non_empty cores else none) ≡ ok cs
      → cs ≡ cores
  cores_of_list [] true h = cc
  cores_of_list [] false h = cc
  cores_of_list (x ∷ xs) true h = sym (ok_same h)
  cores_of_list (x ∷ xs) false h = cc

  -- The cores of a list that have RMID `k`.
  taken_by :
      (s : m.State) (k : ℕ) (cs : List ℕ)
      → listed k (rmids_in s cs) ≡ true
      → (c : ℕ) × In c cs × (rmid_in g s c ≡ k)
  unfolding listed
  taken_by s k [] h = absurd (false≢true h)
  taken_by s k (x ∷ cs) h = elim (Bool-cases (k == rmid_in g s x)) [
    | inl e ↦ (x, inl refl, sym ((==_iff k (rmid_in g s x)).0 e))
    | inr e ↦ let (c, i, same) = taken_by s k cs (rw e at h) in (c, inr i, same)
  ]

  choose_lem :
      (cs : List ℕ) (n : ℕ) (s : m.State) {r : ℕ}
      → (choose cs n s).0 ≡ ok r
      → (r < n)
        × ((c : ℕ) → In c cs → rmid_in g s c ≢ r)
        × ((k : ℕ) → r < k → k < n → (c : ℕ) × In c cs × (rmid_in g s c ≡ k))
  unfolding choose
  choose_lem cs n s {r} h =
      let (rmids, read, found) = ok_next (read_rmids m cs) (λ v. lift (find_rmid v n)) s h in
      let (low, free, above) = find_rmid_lem rmids n {r = r} found in
      let same = read_rmids_lem cs s {out = rmids} read in
      (
        low,
        not_listed s r cs (ap (λ v. listed r v) (sym same) ∙ free),
        λ k l u. taken_by s k cs (ap (λ v. listed k v) (sym same) ∙ above k l u),
      )

  with_list_lem :
      (p : Platform) (b d : Bool) (cluster n : ℕ) (s : m.State) {r : ℕ}
      → (with_list p b d cluster n s).0 ≡ ok r
      → (choose (matching l3_cluster cluster p.cpu.cores) n s).0 ≡ ok r
  unfolding with_list get_cores_l3id
  with_list_lem p b true cluster n s h =
      let (cs, got, on) =
        ok_next (lift (or_error (get_cores_l3id b p.cpu cluster)))
          (λ cs. fail_if false Retval.resource >> choose cs n) s h in
      let same = cores_of_list (matching l3_cluster cluster p.cpu.cores) b got in
      ap (λ v. (choose v n s).0) (sym same) ∙ on
  with_list_lem p b false cluster n s {r} h =
      let (cs, got, on) =
        ok_next (lift (or_error (get_cores_l3id b p.cpu cluster)))
          (λ cs. fail_if true Retval.resource >> choose cs n) s h in
      absurd (let bad : err Retval.resource ≡ ok r = on in cc)

  -- A success of `rmid_alloc` is below the limit for the mask of events; no core of the cluster has
  -- it, and each higher RMID below the limit is that of a core there.
  pub rmid_alloc_lem :
      (p : Platform) (rmid_max : ℕ) (b d : Bool) (cluster event : ℕ) (s : m.State) {r : ℕ}
      → (rmid_alloc m p rmid_max b d cluster event s).0 ≡ ok r
      → let cores = matching l3_cluster cluster p.cpu.cores in
        (n : ℕ) × (rmid_limit p rmid_max event ≡ ok n)
        × (r < n)
        × ((c : ℕ) → In c cores → rmid_in g s c ≢ r)
        × ((k : ℕ) → r < k → k < n → (c : ℕ) × In c cores × (rmid_in g s c ≡ k))
  unfolding rmid_alloc with_list
  rmid_alloc_lem p rmid_max b d cluster event s {r} h =
      let (n, limit, on) =
        ok_next (lift (rmid_limit p rmid_max event)) (with_list p b d cluster) s h in
      let (low, free, above) =
        choose_lem (matching l3_cluster cluster p.cpu.cores) n s
          (with_list_lem p b d cluster n s {r = r} on) in
      (n, limit, low, free, above)

module _ (m : Msr) (a : Accepts m) (g : Registers m) where
  read_rmids_total :
      (cs : List ℕ) (s : m.State)
      → (out : List ℕ) × ((read_rmids m cs s).0 ≡ ok out) × (length out ≡ length cs)
  unfolding read_rmids
  read_rmids_total [] s = ([], refl, refl)
  read_rmids_total (x ∷ cs) s =
      let next = λ (v : ℕ). read_rmids m cs >>= λ rest. pure (v ∷ rest) in
      let rmid = rmid_in g s x in
      let first = bind_of_ok (mon_assoc_get m x) next s (mon_assoc_get_total m a g x s) in
      let s' = (mon_assoc_get m x s).1 in
      let (out, got, size) = read_rmids_total cs s' in
      let rest = bind_of_ok (read_rmids m cs) (λ v. pure (rmid ∷ v)) s' got in
      (rmid ∷ out, ap (λ t. t.0) (first ∙ rest), omega arith)

  non_empty_list : (cores : List ℕ) → 0 < length cores → or_error (non_empty cores) ≡ ok cores
  non_empty_list [] h = absurd (omega arith)
  non_empty_list (x ∷ xs) h = refl

  -- On a driver that accepts every access, with the memory granted, `rmid_alloc` finds an RMID in
  -- every cluster that has a core and fewer cores than there are RMIDs for the mask of events.
  pub rmid_alloc_total :
      (p : Platform) (rmid_max cluster event n : ℕ) (s : m.State)
      → rmid_limit p rmid_max event ≡ ok n
      → 0 < length (matching l3_cluster cluster p.cpu.cores)
      → length (matching l3_cluster cluster p.cpu.cores) < n
      → (r : ℕ) × ((rmid_alloc m p rmid_max true true cluster event s).0 ≡ ok r)
  unfolding rmid_alloc get_cores_l3id
  rmid_alloc_total p rmid_max cluster event n s limit some_core room =
      let cores = matching l3_cluster cluster p.cpu.cores in
      let (out, read, size) = read_rmids_total cores s in
      let (r, found) = find_rmid_total out n (omega arith) in
      let tail = λ (cs : List ℕ).
        fail_if false Retval.resource >> (read_rmids m cs >>= λ v. lift (find_rmid v n)) in
      let list = λ (k : ℕ). lift (or_error (get_cores_l3id true p.cpu cluster)) >>= λ cs.
      fail_if false Retval.resource >> (read_rmids m cs >>= λ v. lift (find_rmid v k)) in
      (
        r,
        ap (λ t. t.0)
              (bind_of_ok (lift (rmid_limit p rmid_max event)) list s limit
                ∙ bind_of_ok (lift (or_error (get_cores_l3id true p.cpu cluster))) tail s
                    (non_empty_list cores some_core)
                ∙ bind_of_ok (read_rmids m cores) (λ v. lift (find_rmid v n)) s read)
            ∙ found,
      )
