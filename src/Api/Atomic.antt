-- ===== src/Api/Atomic.antt =====
-- What a call of lib/api.c on classes, tables or resets comes down to: one step on the state behind the interface, or none.
use multi_resource_isolation.Prelude.{
  ◌≡◌, refl, ap, ◌∙◌, Bool, true, false, not, ◌||◌, ◌==◌, if◌then◌else◌, List, ◌∷◌, none, some,
}
use multi_resource_isolation.Types.{Retval, Result, ok, err, Action, fail}
use multi_resource_isolation.Cap.{Interface, msr, os}
use multi_resource_isolation.Api.{
  Backend, Backends, Library, Event, locked, entered, unlocked, under_lock, dispatch, on_tasks,
  refuse_if,
}
use multi_resource_isolation.Api.Tables.{
  no_entries, entries_of, all_l3_contiguous, all_l2_contiguous, all_rates, pqos_l3ca_set,
  pqos_l3ca_get, pqos_l3ca_get_min_cbm_bits, pqos_l2ca_set, pqos_l2ca_get,
  pqos_l2ca_get_min_cbm_bits, pqos_mba_set, pqos_mba_get,
}
use multi_resource_isolation.Api.Cores.{
  no_technology, pqos_alloc_assoc_set, pqos_alloc_assoc_get, pqos_alloc_assign, pqos_alloc_release,
  pqos_alloc_reset, pqos_alloc_assoc_set_pid, pqos_alloc_assoc_get_pid, pqos_alloc_assign_pid,
  pqos_alloc_release_pid,
}
use multi_resource_isolation.Api.Calls.{
  Call, assoc_set, assoc_get, assign, release, reset, assoc_set_pid, assoc_get_pid, assign_pid,
  release_pid, l3ca_set, l3ca_get, l3ca_min, l2ca_set, l2ca_get, l2ca_min, mba_set, mba_get, coded,
  perform,
}

-- The arguments that are refused before anything else.
abbrev pub bad_arguments : Call → Bool
bad_arguments (assoc_get lcore out) = not out
bad_arguments (assign technology cores out) =
    no_entries cores || (not out || no_technology technology)
bad_arguments (release cores) = no_entries cores
bad_arguments (reset none) = true
bad_arguments (assoc_get_pid task out) = not out
bad_arguments (assign_pid technology tasks out) = no_entries tasks || not out
bad_arguments (release_pid tasks) = no_entries tasks
bad_arguments (l3ca_set socket ca) = no_entries ca
bad_arguments (l3ca_get socket out ca) = not out || no_entries ca
bad_arguments (l3ca_min out) = not out
bad_arguments (l2ca_set l2id ca) = no_entries ca
bad_arguments (l2ca_get l2id max_num_ca out) = not out || max_num_ca == 0
bad_arguments (l2ca_min out) = not out
bad_arguments (mba_set socket requested wanted) =
    no_entries requested || not (all_rates (entries_of requested))
bad_arguments (mba_get socket max_num_cos out) = not out || max_num_cos == 0
bad_arguments _ = false

-- The functions of the interface in force.
abbrev pub side : {S : Type 0} → Backends S → Interface → Backend S
side b msr = b.hw
side b os = b.os

-- A call on tasks, which only the OS interface serves.
abbrev pub tasks_only : {S A : Type 0} → Interface → Action S A → Result (Action S (Unit {0}))
tasks_only msr op = err Retval.error
tasks_only os op = ok (coded op)

-- The work of a call on the interface in force, or the code with which it is refused once the lock
-- is held: a mask that is not contiguous, or tasks without the OS interface.
abbrev pub work : {S : Type 0} → Backends S → Interface → Call → Result (Action S (Unit {0}))
work b i (assoc_set lcore class_id) = ok (coded ((side b i).assoc_set lcore class_id))
work b i (assoc_get lcore out) = ok (coded ((side b i).assoc_get lcore))
work b i (assign technology cores out) =
    ok (coded ((side b i).assign technology (entries_of cores)))
work b i (release cores) = ok (coded ((side b i).release (entries_of cores)))
work b i (reset none) = err Retval.param
work b i (reset (some cfg)) = ok (coded ((side b i).reset cfg))
work b i (assoc_set_pid task class_id) = tasks_only i (b.tasks.assoc_set_pid task class_id)
work b i (assoc_get_pid task out) = tasks_only i (b.tasks.assoc_get_pid task)
work b i (assign_pid technology tasks out) =
    tasks_only i (b.tasks.assign_pid technology (entries_of tasks))
work b i (release_pid tasks) = tasks_only i (b.tasks.release_pid (entries_of tasks))
work b i (l3ca_set socket ca) =
    if all_l3_contiguous (entries_of ca)
    then ok (coded ((side b i).l3ca_set socket (entries_of ca)))
    else err Retval.param
work b i (l3ca_get socket out ca) = ok (coded ((side b i).l3ca_get socket (entries_of ca)))
work b i (l3ca_min out) = ok (coded (side b i).l3ca_min)
work b i (l2ca_set l2id ca) =
    if all_l2_contiguous (entries_of ca)
    then ok (coded ((side b i).l2ca_set l2id (entries_of ca)))
    else err Retval.param
work b i (l2ca_get l2id max_num_ca out) = ok (coded ((side b i).l2ca_get l2id max_num_ca))
work b i (l2ca_min out) = ok (coded (side b i).l2ca_min)
work b i (mba_set socket requested wanted) =
    ok (coded ((side b i).mba_set socket (entries_of requested) wanted))
work b i (mba_get socket max_num_cos out) = ok (coded ((side b i).mba_get socket max_num_cos))

module _ {S : Type 0} where
  -- The step with the lock held: nothing but the code where the library is not initialised or the
  -- work is refused, and else the work alone.
  abbrev pub step : Result (Action S (Unit {0})) → Action (Library S) (Unit {0})
  step w l =
      if l.init_done
      then elim w [
        | err e ↦ (err e, record l { events = unlocked ∷ locked ∷ l.events })
        | ok op ↦
            let (r, s) = op l.state in
            (r, record l { events = unlocked ∷ entered ∷ locked ∷ l.events; state = s })
      ]
      else (err Retval.init, record l { events = unlocked ∷ locked ∷ l.events })

  abbrev pub unless : Bool → Result (Action S (Unit {0})) → Action (Library S) (Unit {0})
  unless bad w l = if bad then (err Retval.param, l) else step w l

  abbrev pub atomic : Backends S → Call → Action (Library S) (Unit {0})
  atomic b c l = unless (bad_arguments c) (work b l.interface c) l

abbrev pub library : {S : Type 0} → Bool → Interface → List Event → S → Library S
library done i es st = record { init_done = done; interface = i; events = es; state = st }

module _ {S A : Type 0} (b : Backends S) where
  -- The three ways in which a function uses the lock.
  dispatched :
      (op : Backend S → Action S A) (done : Bool) (i : Interface) (es : List Event) (st : S)
      → coded (under_lock (dispatch b op)) (library done i es st)
        ≡ step (ok (coded (op (side b i)))) (library done i es st)
  unfolding under_lock
  dispatched op true msr es st = refl
  dispatched op true os es st = refl
  dispatched op false i es st = refl

  tasked :
      (op : Action S A) (done : Bool) (i : Interface) (es : List Event) (st : S)
      → coded (under_lock (on_tasks op)) (library done i es st)
        ≡ step (tasks_only i op) (library done i es st)
  unfolding under_lock
  tasked op true msr es st = refl
  tasked op true os es st = refl
  tasked op false i es st = refl

  tested :
      (fine : Bool) (op : Backend S → Action S A) (done : Bool) (i : Interface) (es : List Event)
      (st : S)
      → coded
          (under_lock (if fine then dispatch b op else fail Retval.param))
          (library done i es st)
        ≡ step
            (if fine then ok (coded (op (side b i))) else err Retval.param)
            (library done i es st)
  unfolding under_lock
  tested true op done i es st = dispatched op done i es st
  tested false op true i es st = refl
  tested false op false i es st = refl

module _ {S A : Type 0} (b : Backends S) where
  -- Arguments that are refused leave everything as it is.
  refused :
      (bad : Bool) (x : Action (Library S) A) (w : Result (Action S (Unit {0}))) (l : Library S)
      → coded x l ≡ step w l
      → coded (refuse_if bad x) l ≡ (if bad then (err Retval.param, l) else step w l)
  refused true x w l e = refl
  refused false x w l e = e

  refused_twice :
      (x y : Bool) (f : Action (Library S) A) → refuse_if x (refuse_if y f) ≡ refuse_if (x || y) f
  refused_twice true y f = refl
  refused_twice false y f = refl

  sent :
      (bad : Bool) (op : Backend S → Action S A) (l : Library S)
      → coded (refuse_if bad (under_lock (dispatch b op))) l
        ≡ (if bad then (err Retval.param, l) else step (ok (coded (op (side b l.interface)))) l)
  sent bad op l =
      refused bad (under_lock (dispatch b op)) (ok (coded (op (side b l.interface)))) l
        (dispatched b op l.init_done l.interface l.events l.state)

  sent_if :
      (bad fine : Bool) (op : Backend S → Action S A) (l : Library S)
      → coded (refuse_if bad (under_lock (if fine then dispatch b op else fail Retval.param))) l ≡ (
          if bad
          then (err Retval.param, l)
          else step (if fine then ok (coded (op (side b l.interface))) else err Retval.param) l)
  sent_if bad fine op l =
      refused bad (under_lock (if fine then dispatch b op else fail Retval.param))
        (if fine then ok (coded (op (side b l.interface))) else err Retval.param) l
        (tested b fine op l.init_done l.interface l.events l.state)

  sent_task :
      (bad : Bool) (op : Action S A) (l : Library S)
      → coded (refuse_if bad (under_lock (on_tasks op))) l
        ≡ (if bad then (err Retval.param, l) else step (tasks_only l.interface op) l)
  sent_task bad op l =
      refused bad (under_lock (on_tasks op)) (tasks_only l.interface op) l
        (tasked b op l.init_done l.interface l.events l.state)

module _ {S : Type 0} (b : Backends S) where
  -- Each of these calls, on every library, is its one step on the interface in force.
  pub perform-atomic : (c : Call) (l : Library S) → perform b c l ≡ atomic b c l
  unfolding perform pqos_alloc_assoc_set pqos_alloc_assoc_get pqos_alloc_assign pqos_alloc_release
      pqos_alloc_reset pqos_alloc_assoc_set_pid pqos_alloc_assoc_get_pid pqos_alloc_assign_pid
      pqos_alloc_release_pid pqos_l3ca_set pqos_l3ca_get pqos_l3ca_get_min_cbm_bits pqos_l2ca_set
      pqos_l2ca_get pqos_l2ca_get_min_cbm_bits pqos_mba_set pqos_mba_get
  perform-atomic (assoc_set lcore class_id) l = sent b false (λ i. i.assoc_set lcore class_id) l
  perform-atomic (assoc_get lcore out) l = sent b (not out) (λ i. i.assoc_get lcore) l
  perform-atomic (assign technology cores out) l =
      sent b _ (λ i. i.assign technology (entries_of cores)) l
  perform-atomic (release cores) l = sent b (no_entries cores) (λ i. i.release (entries_of cores)) l
  perform-atomic (reset none) l = refl
  perform-atomic (reset (some cfg)) l = sent b false (λ i. i.reset cfg) l
  perform-atomic (assoc_set_pid task class_id) l =
      sent_task b false (b.tasks.assoc_set_pid task class_id) l
  perform-atomic (assoc_get_pid task out) l = sent_task b (not out) (b.tasks.assoc_get_pid task) l
  perform-atomic (assign_pid technology tasks out) l =
      sent_task b _ (b.tasks.assign_pid technology (entries_of tasks)) l
  perform-atomic (release_pid tasks) l =
      sent_task b (no_entries tasks) (b.tasks.release_pid (entries_of tasks)) l
  perform-atomic (l3ca_set socket ca) l =
      sent_if b (no_entries ca) (all_l3_contiguous (entries_of ca))
        (λ i. i.l3ca_set socket (entries_of ca)) l
  perform-atomic (l3ca_get socket out ca) l = sent b _ (λ i. i.l3ca_get socket (entries_of ca)) l
  perform-atomic (l3ca_min out) l = sent b (not out) (λ i. i.l3ca_min) l
  perform-atomic (l2ca_set l2id ca) l =
      sent_if b (no_entries ca) (all_l2_contiguous (entries_of ca))
        (λ i. i.l2ca_set l2id (entries_of ca)) l
  perform-atomic (l2ca_get l2id max_num_ca out) l = sent b _ (λ i. i.l2ca_get l2id max_num_ca) l
  perform-atomic (l2ca_min out) l = sent b (not out) (λ i. i.l2ca_min) l
  perform-atomic (mba_set socket requested wanted) l =
      ap (λ f. coded f l)
        (refused_twice b (no_entries requested) (not (all_rates (entries_of requested)))
          (under_lock (dispatch b (λ i. i.mba_set socket (entries_of requested) wanted))))
      ∙ sent b _ (λ i. i.mba_set socket (entries_of requested) wanted) l
  perform-atomic (mba_get socket max_num_cos out) l = sent b _ (λ i. i.mba_get socket max_num_cos) l
