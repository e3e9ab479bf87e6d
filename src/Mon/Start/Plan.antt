-- ===== src/Mon/Start/Plan.antt =====
-- The first loop of `hw_mon_start` over the cores: what its tables hold where it succeeds.
use multi_resource_isolation.Prelude.{
  ℕ, ◌<◌, ◌≡◌, ◌≢◌, refl, sym, ap, ◌∙◌, Bool, true, false, not, arith, ◌==◌, List, [], ◌∷◌, ◌++◌,
  In, All, subst,
}
use multi_resource_isolation.Types.{Retval, Result, ok, err, Action, pure, lift, fail_if, ◌>>=◌}
use multi_resource_isolation.Types.Bind.{ok_next, ok_same, past_guard}
use multi_resource_isolation.Msr.{Msr, Registers, msr_assoc}
use multi_resource_isolation.Msr.Keeps.{Keeps, bind-Keeps, fail_if-Keeps}
use multi_resource_isolation.Cpu.{check_core, get_clusterid, matching, l3_cluster}
use multi_resource_isolation.Alloc.{Platform}
use multi_resource_isolation.Alloc.Assoc.{or_param}
use multi_resource_isolation.Mon.{PollCtx}
use multi_resource_isolation.Mon.Assoc.{rmid_of, mon_assoc_get}
use multi_resource_isolation.Mon.Assoc.Field.{rmid_in, mon_assoc_get_value, mon_assoc_get-Keeps}
use multi_resource_isolation.Mon.Rmid.{rmid_alloc}
use multi_resource_isolation.Mon.Rmid.Limit.{rmid_limit_lem}
use multi_resource_isolation.Mon.Rmid.Free.{rmid_alloc_lem, rmid_alloc-Keeps}
use multi_resource_isolation.Mon.Start.{
  Grants, has_context, rmid_events, get_or_param, context_unless, with_context, plan,
}

All-append : {A : Type 0} (P : A → Type 0) (xs ys : List A) → All P xs → All P ys → All P (xs ++ ys)
All-append P [] ys h k = k
All-append P (x ∷ xs) ys h k = (h.0, All-append P xs ys h.1 k)

or_param_ok : {A : Type 0} (r : Result A) {a : A} → or_param r ≡ ok a → r ≡ ok a
or_param_ok (ok x) h = h
or_param_ok (err e) h = cc

is_zero : (n : ℕ) → not (n == 0) ≡ false → n ≡ 0
is_zero n h = ground arith

-- The cores of a list of pairs.
abbrev pub firsts : List (ℕ × ℕ) → List ℕ
firsts [] = []
firsts ((c, k) ∷ rest) = c ∷ firsts rest

module _ (m : Msr) (g : Registers m) (p : Platform) (rmid_max : ℕ) (s : m.State) where
  -- An RMID in range that no core of its cluster had in state `s`.
  abbrev pub Fresh : PollCtx → Type 0
  Fresh x =
      (x.rmid < rmid_max)
      × ((c : ℕ) → In c (matching l3_cluster x.cluster p.cpu.cores) → rmid_in g s c ≢ x.rmid)

  -- A core with its cluster, not monitored in state `s`.
  abbrev pub Idle : ℕ × ℕ → Type 0
  Idle x = (rmid_in g s x.0 ≡ 0) × (get_clusterid p.cpu x.0 ≡ ok x.1)

  abbrev pub SameRmids : m.State → Type 0
  SameRmids t = (c : ℕ) → g.peek t c msr_assoc ≡ g.peek s c msr_assoc

  module _ (grants : Grants) (event : ℕ) where
    context_unless-Keeps :
        (known : Bool) (lcore cluster : ℕ) (ctxs : List PollCtx) {reg : ℕ}
        → Keeps g reg (context_unless m known p rmid_max grants event lcore cluster ctxs)
    unfolding context_unless
    context_unless-Keeps true lcore cluster ctxs = λ t c. refl
    context_unless-Keeps false lcore cluster ctxs =
        bind-Keeps g
          (rmid_alloc m p rmid_max (grants.core_list cluster) (grants.rmid_list cluster) cluster
            (rmid_events event))
          (λ rmid. pure (ctxs ++ (record { lcore = lcore; cluster = cluster; rmid = rmid } ∷ [])))
          (rmid_alloc-Keeps m g p rmid_max (grants.core_list cluster) (grants.rmid_list cluster)
            cluster (rmid_events event))
          (λ rmid t c. refl)

    context_unless_lem :
        (known : Bool) (lcore cluster : ℕ) (ctxs : List PollCtx) (t : m.State) {out : List PollCtx}
        → SameRmids t
        → (context_unless m known p rmid_max grants event lcore cluster ctxs t).0 ≡ ok out
        → All Fresh ctxs
        → All Fresh out
    unfolding context_unless
    context_unless_lem true lcore cluster ctxs t same h old = subst (All Fresh) (ok_same h) old
    context_unless_lem false lcore cluster ctxs t same h old =
        let alloc =
          rmid_alloc m p rmid_max (grants.core_list cluster) (grants.rmid_list cluster) cluster
            (rmid_events event) in
        let new =
          λ (r : ℕ). let x : PollCtx = record { lcore = lcore; cluster = cluster; rmid = r } in x in
        let (r, got, on) = ok_next alloc (λ v. pure (ctxs ++ (new v ∷ []))) t h in
        let (n, limit, low, free, above) =
          rmid_alloc_lem m g p rmid_max (grants.core_list cluster) (grants.rmid_list cluster)
            cluster (rmid_events event) t {r = r} got in
        let (mon, found, pos, small, allows) =
          rmid_limit_lem p rmid_max (rmid_events event) {n = n} limit in
        subst (All Fresh) (ok_same on) (
          All-append Fresh ctxs (new r ∷ []) old
            ((omega arith, λ c i e. free c i (ap rmid_of (same c) ∙ e)), tt))

    -- A round of the loop, in its parts.
    end_round : ℕ → ℕ → List PollCtx × List (ℕ × ℕ) → Action m.State (List PollCtx × List (ℕ × ℕ))
    end_round lcore cluster planned = pure (planned.0, (lcore, cluster) ∷ planned.1)

    on_context : ℕ → List ℕ → ℕ → List PollCtx → Action m.State (List PollCtx × List (ℕ × ℕ))
    unfolding end_round
    on_context lcore cores cluster ctxs' =
        plan m p rmid_max grants event cores ctxs' >>= end_round lcore cluster

    on_cluster : ℕ → List ℕ → List PollCtx → ℕ → Action m.State (List PollCtx × List (ℕ × ℕ))
    unfolding on_context
    on_cluster lcore cores ctxs cluster =
        with_context m p rmid_max grants event lcore cluster ctxs >>= on_context lcore cores cluster

    on_idle : ℕ → List ℕ → List PollCtx → Unit {0} → Action m.State (List PollCtx × List (ℕ × ℕ))
    unfolding on_cluster
    on_idle lcore cores ctxs u =
        lift (or_param (get_clusterid p.cpu lcore)) >>= on_cluster lcore cores ctxs

    on_rmid : ℕ → List ℕ → List PollCtx → ℕ → Action m.State (List PollCtx × List (ℕ × ℕ))
    unfolding on_idle
    on_rmid lcore cores ctxs rmid =
        fail_if (not (rmid == 0)) Retval.resource >>= on_idle lcore cores ctxs

    on_core : ℕ → List ℕ → List PollCtx → Unit {0} → Action m.State (List PollCtx × List (ℕ × ℕ))
    unfolding on_rmid
    on_core lcore cores ctxs u = get_or_param (mon_assoc_get m lcore) >>= on_rmid lcore cores ctxs

    pub plan-Keeps :
        (cores : List ℕ) (ctxs : List PollCtx) {reg : ℕ}
        → Keeps g reg (plan m p rmid_max grants event cores ctxs)
    unfolding plan on_core
    plan-Keeps [] ctxs = λ t c. refl
    plan-Keeps (lcore ∷ cores) ctxs =
        bind-Keeps g (lift (or_param (check_core p.cpu lcore))) (on_core lcore cores ctxs)
          (λ t c. refl)
          (λ u.
            bind-Keeps g (get_or_param (mon_assoc_get m lcore)) (on_rmid lcore cores ctxs)
              (mon_assoc_get-Keeps m g lcore)
              (λ rmid.
                bind-Keeps g (fail_if (not (rmid == 0)) Retval.resource) (on_idle lcore cores ctxs)
                  (fail_if-Keeps g (not (rmid == 0)) Retval.resource)
                  (λ v.
                    bind-Keeps g (lift (or_param (get_clusterid p.cpu lcore)))
                      (on_cluster lcore cores ctxs) (λ t c. refl)
                      (λ k.
                        bind-Keeps g (with_context m p rmid_max grants event lcore k ctxs)
                          (on_context lcore cores k)
                          (context_unless-Keeps (has_context lcore k ctxs) lcore k ctxs)
                          (λ ctxs'.
                            bind-Keeps g (plan m p rmid_max grants event cores ctxs')
                              (end_round lcore k) (plan-Keeps cores ctxs') (λ out t c. refl))))))

    -- Where the loop succeeds, the contexts have RMIDs that are in range and free in their
    -- clusters, and no core was monitored.
    pub plan_lem :
        (cores : List ℕ) (ctxs : List PollCtx) (t : m.State) {out : List PollCtx × List (ℕ × ℕ)}
        → SameRmids t
        → (plan m p rmid_max grants event cores ctxs t).0 ≡ ok out
        → All Fresh ctxs
        → All Fresh out.0 × All Idle out.1 × (firsts out.1 ≡ cores)
    unfolding plan on_core
    plan_lem [] ctxs t same h old = (
      subst (All Fresh) (ap (λ v. v.0) (ok_same h)) old,
      subst (All Idle) (ap (λ v. v.1) (ok_same h)) tt,
      ap (λ v. firsts v.1) (sym (ok_same h)),
    )
    plan_lem (lcore ∷ cores) ctxs t {out} same h old =
        let (u, known, h1) =
          ok_next (lift (or_param (check_core p.cpu lcore))) (on_core lcore cores ctxs) t h in
        let (rmid, got, h2) =
          ok_next (get_or_param (mon_assoc_get m lcore)) (on_rmid lcore cores ctxs) t h1 in
        let t1 = (mon_assoc_get m lcore t).1 in
        let (idle, h3) =
          past_guard (not (rmid == 0)) Retval.resource (on_idle lcore cores ctxs) t1 h2 in
        let (k, located, h4) =
          ok_next (lift (or_param (get_clusterid p.cpu lcore))) (on_cluster lcore cores ctxs) t1
            h3 in
        let (ctxs', more, h5) =
          ok_next (with_context m p rmid_max grants event lcore k ctxs) (on_context lcore cores k)
            t1 h4 in
        let t2 = (with_context m p rmid_max grants event lcore k ctxs t1).1 in
        let (planned, rest, h6) =
          ok_next (plan m p rmid_max grants event cores ctxs') (end_round lcore k) t2 h5 in
        let same1 : SameRmids t1 = λ c. mon_assoc_get-Keeps m g lcore t c ∙ same c in
        let same2 : SameRmids t2 =
          λ c. context_unless-Keeps (has_context lcore k ctxs) lcore k ctxs t1 c ∙ same1 c in
        let fresh =
          context_unless_lem (has_context lcore k ctxs) lcore k ctxs t1 {out = ctxs'} same1 more
            old in
        let (all, idles, names) = plan_lem cores ctxs' t2 {out = planned} same2 rest fresh in
        let zero_rmid : rmid_in g s lcore ≡ 0 =
          ap rmid_of (sym (same lcore))
          ∙ sym (
              mon_assoc_get_value m g lcore t {v = rmid}
                (or_param_ok (mon_assoc_get m lcore t).0 got))
          ∙ is_zero rmid idle in
        let last = ok_same h6 in
        (
          subst (All Fresh) (ap (λ v. v.0) last) all,
          subst (All Idle) (ap (λ v. v.1) last)
              ((zero_rmid, or_param_ok (get_clusterid p.cpu lcore) located), idles),
          ap (λ v. firsts v.1) (sym last) ∙ ap (λ v. lcore ∷ v) names,
        )
