-- ===== src/Api/Outcome.antt =====
-- What comes of a call of lib/api.c on classes, tables or resets, and which functions behind the
-- library it depends on.
use multi_resource_isolation.Prelude.{
  ◌≡◌, refl, sym, ap, subst, ◌∙◌, ◌⊎◌, inl, inr, Bool, true, false, List, ◌∷◌, none, some,
  if◌then◌else◌,
}
use multi_resource_isolation.Types.{Retval, Result, ok, err, Action}
use multi_resource_isolation.Cap.{Interface, msr, os}
use multi_resource_isolation.Api.{Backends, Library, Event, locked, entered, unlocked}
use multi_resource_isolation.Api.Tables.{entries_of, all_l3_contiguous, all_l2_contiguous}
use multi_resource_isolation.Api.Calls.{
  Call, assoc_set, assoc_get, assign, release, reset, assoc_set_pid, assoc_get_pid, assign_pid,
  release_pid, l3ca_set, l3ca_get, l3ca_min, l2ca_set, l2ca_get, l2ca_min, mba_set, mba_get,
  perform,
}
use multi_resource_isolation.Api.Atomic.{
  bad_arguments, work, step, unless, atomic, perform-atomic, library,
}

module _ {S : Type 0} where
  -- The ways in which a call on the library `l` can end: its code and the library after it.
  pub data Outcome (l : Library S) : Result (Unit {0}) → Library S → Type 0 where
    refused : Outcome l (err Retval.param) l
    uninitialised :
        l.init_done ≡ false
        → Outcome l (err Retval.init) (record l { events = unlocked ∷ locked ∷ l.events })
    declined :
        (e : Retval)
        → l.init_done ≡ true
        → ((e ≡ Retval.param) ⊎ (e ≡ Retval.error))
        → Outcome l (err e) (record l { events = unlocked ∷ locked ∷ l.events })
    served :
        (r : Result (Unit {0})) (s : S)
        → l.init_done ≡ true
        → Outcome l r (record l { events = unlocked ∷ entered ∷ locked ∷ l.events; state = s })

  -- Two sets of functions that are the same for an interface. The functions on tasks belong to the
  -- OS interface.
  abbrev pub Agree : Interface → Backends S → Backends S → Type 0
  Agree msr b b' = b.hw ≡ b'.hw
  Agree os b b' = (b.os ≡ b'.os) × (b.tasks ≡ b'.tasks)

  work_on_msr : (b b' : Backends S) (c : Call) → work b msr c ≡ work (record b' { hw = b.hw }) msr c
  work_on_msr b b' (assoc_set lcore class_id) = refl
  work_on_msr b b' (assoc_get lcore out) = refl
  work_on_msr b b' (assign technology cores out) = refl
  work_on_msr b b' (release cores) = refl
  work_on_msr b b' (reset none) = refl
  work_on_msr b b' (reset (some cfg)) = refl
  work_on_msr b b' (assoc_set_pid task class_id) = refl
  work_on_msr b b' (assoc_get_pid task out) = refl
  work_on_msr b b' (assign_pid technology tasks out) = refl
  work_on_msr b b' (release_pid tasks) = refl
  work_on_msr b b' (l3ca_set socket ca) = refl
  work_on_msr b b' (l3ca_get socket out ca) = refl
  work_on_msr b b' (l3ca_min out) = refl
  work_on_msr b b' (l2ca_set l2id ca) = refl
  work_on_msr b b' (l2ca_get l2id max_num_ca out) = refl
  work_on_msr b b' (l2ca_min out) = refl
  work_on_msr b b' (mba_set socket requested wanted) = refl
  work_on_msr b b' (mba_get socket max_num_cos out) = refl

  work_on_os :
      (b b' : Backends S) (c : Call)
      → work b os c ≡ work (record b' { os = b.os; tasks = b.tasks }) os c
  work_on_os b b' (assoc_set lcore class_id) = refl
  work_on_os b b' (assoc_get lcore out) = refl
  work_on_os b b' (assign technology cores out) = refl
  work_on_os b b' (release cores) = refl
  work_on_os b b' (reset none) = refl
  work_on_os b b' (reset (some cfg)) = refl
  work_on_os b b' (assoc_set_pid task class_id) = refl
  work_on_os b b' (assoc_get_pid task out) = refl
  work_on_os b b' (assign_pid technology tasks out) = refl
  work_on_os b b' (release_pid tasks) = refl
  work_on_os b b' (l3ca_set socket ca) = refl
  work_on_os b b' (l3ca_get socket out ca) = refl
  work_on_os b b' (l3ca_min out) = refl
  work_on_os b b' (l2ca_set l2id ca) = refl
  work_on_os b b' (l2ca_get l2id max_num_ca out) = refl
  work_on_os b b' (l2ca_min out) = refl
  work_on_os b b' (mba_set socket requested wanted) = refl
  work_on_os b b' (mba_get socket max_num_cos out) = refl

  work_of_interface :
      (b b' : Backends S) (i : Interface) (c : Call) → Agree i b b' → work b i c ≡ work b' i c
  work_of_interface b b' msr c same =
      work_on_msr b b' c ∙ ap (λ h. work (record b' { hw = h }) msr c) same
  work_of_interface b b' os c (functions, tasks) =
      work_on_os b b' c
      ∙ ap (λ f. work (record b' { os = f; tasks = b.tasks }) os c) functions
      ∙ ap (λ f. work (record b' { tasks = f }) os c) tasks

  -- A call that is declined with the lock held is declined with one of two codes.
  abbrev Declines : Result (Action S (Unit {0})) → Type 0
  Declines (ok op) = Unit
  Declines (err e) = (e ≡ Retval.param) ⊎ (e ≡ Retval.error)

  if-Declines :
      (fine : Bool) (op : Action S (Unit {0})) → Declines (if fine then ok op else err Retval.param)
  if-Declines true op = tt
  if-Declines false op = inl refl

  work-Declines : (b : Backends S) (i : Interface) (c : Call) → Declines (work b i c)
  work-Declines b i (assoc_set lcore class_id) = tt
  work-Declines b i (assoc_get lcore out) = tt
  work-Declines b i (assign technology cores out) = tt
  work-Declines b i (release cores) = tt
  work-Declines b i (reset (some cfg)) = tt
  work-Declines b i (l3ca_get socket out ca) = tt
  work-Declines b i (l3ca_min out) = tt
  work-Declines b i (l2ca_get l2id max_num_ca out) = tt
  work-Declines b i (l2ca_min out) = tt
  work-Declines b i (mba_set socket requested wanted) = tt
  work-Declines b i (mba_get socket max_num_cos out) = tt
  work-Declines b i (reset none) = inl refl
  work-Declines b msr (assoc_set_pid task class_id) = inr refl
  work-Declines b os (assoc_set_pid task class_id) = tt
  work-Declines b msr (assoc_get_pid task out) = inr refl
  work-Declines b os (assoc_get_pid task out) = tt
  work-Declines b msr (assign_pid technology tasks out) = inr refl
  work-Declines b os (assign_pid technology tasks out) = tt
  work-Declines b msr (release_pid tasks) = inr refl
  work-Declines b os (release_pid tasks) = tt
  work-Declines b i (l3ca_set socket ca) = if-Declines (all_l3_contiguous (entries_of ca)) _
  work-Declines b i (l2ca_set l2id ca) = if-Declines (all_l2_contiguous (entries_of ca)) _

  step-Outcome :
      (w : Result (Action S (Unit {0}))) (done : Bool) (i : Interface) (es : List Event) (st : S)
      → Declines w
      → Outcome
          (library done i es st)
          (step w (library done i es st)).0
          (step w (library done i es st)).1
  step-Outcome w false i es st codes = uninitialised refl
  step-Outcome (err x) true i es st codes = declined x refl codes
  step-Outcome (ok op) true i es st codes = served (op st).0 (op st).1 refl

  unless-Outcome :
      (bad : Bool) (w : Result (Action S (Unit {0}))) (l : Library S)
      → Declines w
      → Outcome l (unless bad w l).0 (unless bad w l).1
  unless-Outcome true w l codes = refused
  unless-Outcome false w l codes = step-Outcome w l.init_done l.interface l.events l.state codes

  -- A call on associations, classes, tables or resets that returns a code does the same with any two sets of
  -- functions that agree for the interface in force: with the MSR interface it depends on none of
  -- the functions of the OS interface, those on tasks included, and with the OS interface on none
  -- of the MSR interface. It ends in one of four ways: with the code PARAM and nothing done; with
  -- the code INIT where the library is not initialised, the lock taken and dropped; with PARAM or
  -- ERROR where it is, the lock taken and dropped and nothing else done; or with the interface
  -- entered once between the lock and the unlock, where only the state behind it can differ.
  pub perform-Outcome :
      (b b' : Backends S) (c : Call) (l : Library S)
      → Agree l.interface b b'
      → (perform b c l ≡ perform b' c l) × Outcome l (perform b c l).0 (perform b c l).1
  perform-Outcome b b' c l same =
      let once : perform b c l ≡ atomic b c l = perform-atomic b c l in
      (
        once
            ∙ ap (λ w. unless (bad_arguments c) w l) (work_of_interface b b' l.interface c same)
            ∙ sym (perform-atomic b' c l),
        subst (λ t. Outcome l t.0 t.1) (sym once)
            (unless-Outcome (bad_arguments c) (work b l.interface c) l
              (work-Declines b l.interface c)),
      )
