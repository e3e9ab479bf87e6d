-- ===== src/Mon/Start/Started.antt =====
-- A success of `hw_mon_start`: the RMIDs of all cores before and after.
use multi_resource_isolation.Prelude.{
  All-implies, ℕ, ◌^◌, ◌%◌, ◌<◌, ◌≤◌, ◌≡◌, ◌≢◌, refl, sym, ap, ◌∙◌, true, false, not, arith,
  if◌then◌else◌, List, [], In, All, subst,
}
use multi_resource_isolation.Types.{Retval, Result, ok, err, Action, pure, lift, fail_if, ◌>>=◌}
use multi_resource_isolation.Types.Bind.{ok_next, bind_of_ok, ok_same, past_guard, open_guard}
use multi_resource_isolation.Msr.{Msr, Registers, msr_assoc}
use multi_resource_isolation.Cpu.{listed, get_clusterid, matching, l3_cluster}
use multi_resource_isolation.Cpu.Clusters.{get_clusterid-In}
use multi_resource_isolation.Alloc.{Platform}
use multi_resource_isolation.Alloc.Assoc.{class_of}
use multi_resource_isolation.Alloc.Assoc.Field.{class_in, PerCore}
use multi_resource_isolation.Mon.{PollCtx, MonData, zero_group}
use multi_resource_isolation.Mon.Assoc.{rmid_of}
use multi_resource_isolation.Mon.Assoc.Field.{rmid_in}
use multi_resource_isolation.Mon.Perf.{ia32_perf_counter_start}
use multi_resource_isolation.Mon.Perf.Keeps.{ia32_perf_counter_start-Keeps}
use multi_resource_isolation.Mon.Start.{
  Grants, check_events, plan, rmid_for, associate, or_undo, begin, hw_mon_start,
}
use multi_resource_isolation.Mon.Start.Associate.{
  rmid_for_lem, pair_of, All-zip, unlisted, associate_rmid, associate_class,
}
use multi_resource_isolation.Mon.Start.Plan.{Fresh, Idle, plan-Keeps, plan_lem}

module _ (m : Msr) (cores : List ℕ) where
  or_undo_ok :
      {A : Type 0} (x : Action m.State A) (s : m.State) {a : A}
      → (or_undo m cores x s).0 ≡ ok a
      → ((x s).0 ≡ ok a) × (or_undo m cores x s ≡ x s)
  or_undo_ok {A} x s {a} h = by_result (x s).0 (x s).1 h
    where
      by_result :
          (r : Result A) (t : m.State)
          → (or_undo m cores (λ _. (r, t)) s).0 ≡ ok a
          → (r ≡ ok a)
            × (or_undo m cores (λ _. (r, t)) s ≡ (let q : Result A × m.State = (r, t) in q))
      by_result (ok b) t e = (e, refl)
      by_result (err e') t e = absurd (let bad : err e' ≡ ok a = e in cc)

module _ (m : Msr) (g : Registers m) (p : Platform) (rmid_max : ℕ) (grants : Grants)
    (cores : List ℕ) (event context : ℕ) (s : m.State) where
  abbrev Planned : Type 0
  Planned = List PollCtx × List (ℕ × ℕ)

  -- The chain of `hw_mon_start` from its parts.
  finish : Planned → Unit {0} → Action m.State MonData
  finish planned u =
      pure (record zero_group {
        event = event;
        context = context;
        poll_ctx = planned.0;
        cores = cores;
      })

  attempt : Planned → Action m.State (Unit {0})
  attempt planned = or_undo m cores (begin m event grants.poll_ctx cores planned.1 planned.0)

  on_room : Planned → Unit {0} → Action m.State MonData
  unfolding attempt finish
  on_room planned u = attempt planned >>= finish planned

  on_plan : Planned → Action m.State MonData
  unfolding on_room
  on_plan planned = fail_if (not grants.cores) Retval.resource >>= on_room planned

  on_events : Unit {0} → Action m.State MonData
  unfolding on_plan
  on_events u = plan m p rmid_max grants event cores [] >>= on_plan

  -- What `begin` does where it succeeds: the last loop, from a state with the same associations.
  begun :
      (planned : Planned) (t : m.State)
      → (begin m event grants.poll_ctx cores planned.1 planned.0 t).0 ≡ ok tt
      → (v : m.State) × ((associate m planned.1 planned.0 v).0 ≡ ok tt)
        × ((c : ℕ) → g.peek v c msr_assoc ≡ g.peek t c msr_assoc)
        × (begin m event grants.poll_ctx cores planned.1 planned.0 t
            ≡ associate m planned.1 planned.0 v)
  unfolding begin
  begun planned t h =
      let last = λ (u : Unit {0}). associate m planned.1 planned.0 in
      let counters = λ (u : Unit {0}). ia32_perf_counter_start m event cores >>= last in
      let (room, h1) = past_guard (not grants.poll_ctx) Retval.resource counters t h in
      let (u, done, h2) = ok_next (ia32_perf_counter_start m event cores) last t h1 in
      (
        (ia32_perf_counter_start m event cores t).1,
        h2,
        λ c. ia32_perf_counter_start-Keeps m g event cores t c,
        open_guard (not grants.poll_ctx) Retval.resource counters t room
            ∙ bind_of_ok (ia32_perf_counter_start m event cores) last t done,
      )

  -- The parts of a call that succeeds: the plan, and the last loop, from a state in which the
  -- associations are those of the start.
  pub started :
      {group : MonData}
      → (hw_mon_start m p rmid_max grants cores event context s).0 ≡ ok group
      → (planned : List PollCtx × List (ℕ × ℕ)) × (v : m.State) × ((plan m p rmid_max grants event
            cores [] s).0
          ≡ ok planned)
        × ((associate m planned.1 planned.0 v).0 ≡ ok tt)
        × ((c : ℕ) → g.peek v c msr_assoc ≡ g.peek s c msr_assoc)
        × ((hw_mon_start m p rmid_max grants cores event context s).1
            ≡ (associate m planned.1 planned.0 v).1)
        × (group.cores ≡ cores)
        × (group.poll_ctx ≡ planned.0)
  unfolding hw_mon_start on_events
  started {group} h =
      let (u, known, h1) = ok_next (lift (check_events p event 32 0)) on_events s h in
      let (planned, made, h2) = ok_next (plan m p rmid_max grants event cores []) on_plan s h1 in
      let t = (plan m p rmid_max grants event cores [] s).1 in
      let (room, h3) = past_guard (not grants.cores) Retval.resource (on_room planned) t h2 in
      let (w, kept, h4) = ok_next (attempt planned) (finish planned) t h3 in
      let steps = begin m event grants.poll_ctx cores planned.1 planned.0 in
      let (fine, same) = or_undo_ok m cores steps t kept in
      let (v, linked, alike, last) = begun planned t fine in
      (
        planned,
        v,
        made,
        linked,
        λ c. alike c ∙ plan-Keeps m g p rmid_max s grants event cores [] s c,
        ap (λ q. q.1)
              (bind_of_ok (lift (check_events p event 32 0)) on_events s known
                ∙ bind_of_ok (plan m p rmid_max grants event cores []) on_plan s made
                ∙ open_guard (not grants.cores) Retval.resource (on_room planned) t room
                ∙ bind_of_ok (attempt planned) (finish planned) t kept)
            ∙ ap (λ q. q.1) (same ∙ last),
        ap (λ (q : MonData). q.cores) (sym (ok_same h4)),
        ap (λ (q : MonData). q.poll_ctx) (sym (ok_same h4)),
      )

module _ (m : Msr) (g : Registers m) (own : PerCore g) (p : Platform) (rmid_max : ℕ)
    (grants : Grants) (cores : List ℕ) (event context : ℕ) (s : m.State) where
  -- What a success means for a core of the list.
  abbrev pub Monitored : m.State → ℕ → Type 0
  Monitored s' c =
      (cluster : ℕ) × (get_clusterid p.cpu c ≡ ok cluster)
      × (rmid_in g s c ≡ 0)
      × (rmid_in g s' c ≢ 0)
      × (rmid_in g s' c < rmid_max)
      × ((d : ℕ) → In d (matching l3_cluster cluster p.cpu.cores) → rmid_in g s d ≢ rmid_in g s' c)

  monitored :
      (s' : m.State) (c k r : ℕ)
      → rmid_max ≤ 2 ^ 10
      → get_clusterid p.cpu c ≡ ok k
      → rmid_in g s c ≡ 0
      → rmid_in g s' c ≡ r % 2 ^ 10
      → r < rmid_max
      → ((d : ℕ) → In d (matching l3_cluster k p.cpu.cores) → rmid_in g s d ≢ r)
      → Monitored s' c
  monitored s' c k r small located idle now low free =
      let whole : rmid_in g s' c ≡ r = now ∙ omega arith in
      (
        k,
        located,
        idle,
        λ e. free c (get_clusterid-In p.cpu c {k = k} located) (idle ∙ sym e ∙ whole),
        omega arith,
        λ d i e. free d i (e ∙ whole),
      )

  -- The pairs that stand for one core have one cluster, and so one RMID.
  one_rmid :
      (c k r : ℕ) (ctxs : List PollCtx) (pairs : List (ℕ × ℕ))
      → get_clusterid p.cpu c ≡ ok k
      → rmid_for k ctxs ≡ ok r
      → All (Idle m g p rmid_max s) pairs
      → All (λ x. x.0 ≡ c → rmid_for x.1 ctxs ≡ ok r) pairs
  one_rmid c k r ctxs pairs located chosen =
      All-implies (Idle m g p rmid_max s) (λ x. x.0 ≡ c → rmid_for x.1 ctxs ≡ ok r) pairs
        (λ x idle e.
          let same : k ≡ x.1 = ok_same (sym located ∙ ap (get_clusterid p.cpu) (sym e) ∙ idle.1) in
          ap (λ (j : ℕ). rmid_for j ctxs) (sym same) ∙ chosen)

  -- What a success means for a core on the list, for one off the list, and for the classes.
  pub hw_mon_start_lem :
      {group : MonData} (c : ℕ)
      → rmid_max ≤ 2 ^ 10
      → (hw_mon_start m p rmid_max grants cores event context s).0 ≡ ok group
      → let s' = (hw_mon_start m p rmid_max grants cores event context s).1 in
        (listed c cores ≡ true → Monitored s' c)
        × (listed c cores ≡ false → rmid_in g s' c ≡ rmid_in g s c)
        × (class_in g s' c ≡ class_in g s c)
  hw_mon_start_lem {group} c small h =
      let (planned, v, made, linked, alike, end, named, tabled) =
        started m g p rmid_max grants cores event context s {group = group} h in
      let (all, idles, names) =
        plan_lem m g p rmid_max s grants event cores [] s {out = planned} (λ d. refl) made tt in
      let (class, found) = associate_class m g own planned.1 planned.0 v c linked in
      let rmid_now = λ (r : ℕ) (one : All (λ x. x.0 ≡ c → rmid_for x.1 planned.0 ≡ ok r) planned.1).
        ap (λ t. rmid_in g t c) end
        ∙ associate_rmid m g own planned.1 planned.0 v c r linked one
        ∙ ap (λ b. if b then r % 2 ^ 10 else rmid_in g v c) (ap (listed c) names) in
      (
        λ on_list.
            let Chosen = λ (x : ℕ × ℕ). (r : ℕ) × (rmid_for x.1 planned.0 ≡ ok r) in
            let Both = λ (x : ℕ × ℕ). Idle m g p rmid_max s x × Chosen x in
            let (x, both, same) =
              pair_of Both c planned.1 (ap (listed c) names ∙ on_list)
                (All-zip (Idle m g p rmid_max s) Chosen planned.1 idles found) in
            let located : get_clusterid p.cpu c ≡ ok x.1 =
              ap (get_clusterid p.cpu) (sym same) ∙ both.0.1 in
            let idle : rmid_in g s c ≡ 0 = ap (λ d. rmid_in g s d) (sym same) ∙ both.0.0 in
            let (r, chosen) = both.1 in
            let (ctx, fresh, there, gives) =
              rmid_for_lem (Fresh m g p rmid_max s) x.1 planned.0 {v = r} chosen all in
            let now =
              rmid_now r (one_rmid c x.1 r planned.0 planned.1 located chosen idles)
              ∙ ap (λ b. if b then r % 2 ^ 10 else rmid_in g v c) on_list in
            monitored (hw_mon_start m p rmid_max grants cores event context s).1 c x.1 r small
              located idle now (subst (λ j. j < rmid_max) gives fresh.0)
              (λ d i e.
                fresh.1 d (subst (λ j. In d (matching l3_cluster j p.cpu.cores)) (sym there) i)
                  (e ∙ sym gives)),
        λ off_list.
            rmid_now 0 (
              All-implies (λ x. ¬ (x.0 ≡ c)) (λ x. x.0 ≡ c → rmid_for x.1 planned.0 ≡ ok 0)
                planned.1 (λ x no_way e. absurd (no_way e))
                (unlisted c planned.1 (ap (listed c) names ∙ off_list)))
            ∙ ap (λ b. if b then 0 else rmid_in g v c) off_list
            ∙ ap rmid_of (alike c),
        ap (λ t. class_in g t c) end ∙ class ∙ ap class_of (alike c),
      )

  -- A success of `hw_mon_start`, with RMIDs of 10 bits: a core of the list had RMID 0, and has one
  -- now that is not 0, is below the limit, and was before of no core in its cluster; it keeps its
  -- class.
  pub hw_mon_start-Monitored :
      {group : MonData} (c : ℕ)
      → rmid_max ≤ 2 ^ 10
      → (hw_mon_start m p rmid_max grants cores event context s).0 ≡ ok group
      → listed c cores ≡ true
      → let s' = (hw_mon_start m p rmid_max grants cores event context s).1 in
        Monitored s' c × (class_in g s' c ≡ class_in g s c)
  hw_mon_start-Monitored {group} c small h on_list =
      let (here, away, class) = hw_mon_start_lem {group = group} c small h in (here on_list, class)
