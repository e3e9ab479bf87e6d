-- ===== src/Tests/Api.antt =====
-- Calls of the API on the bench.
use multi_resource_isolation.Prelude.{
  ℕ, ◌+◌, ◌≡◌, refl, true, false, List, [], ◌∷◌, some, arith, All,
}
use multi_resource_isolation.Types.{ok, err, Retval, fail}
use multi_resource_isolation.Cpu.{get_one_core}
use multi_resource_isolation.Cap.{msr, l3ca_get_cos_num, l3ca_cdp_enabled}
use multi_resource_isolation.Alloc.{msr_l3ca_mask_start}
use multi_resource_isolation.Alloc.L3.{L3ca}
use multi_resource_isolation.Alloc.L3.Get.{HasWays}
use multi_resource_isolation.Alloc.L3.Set.{last_ways}
use multi_resource_isolation.Api.{
  Backend, Backends, Tasks, Library, unlocked, locked, under_lock, dispatch,
}
use multi_resource_isolation.Api.Tables.{all_l3_contiguous, pqos_l3ca_set, pqos_l3ca_get}
use multi_resource_isolation.Api.Hw.{Hardware, hw_backend}
use multi_resource_isolation.Api.Calls.{perform, l3ca_set, assoc_get}
use multi_resource_isolation.Api.Outcome.{Outcome, perform-Outcome}
use multi_resource_isolation.Api.Locking.{none_yet, here, next, Kept, Reach-Kept}
use multi_resource_isolation.Api.Masks.{HasRuns, all_l3_contiguous_iff, pqos_l3ca_set-runs}
use multi_resource_isolation.Api.Client.{linked, pqos_l3ca_get-set}
use multi_resource_isolation.Tests.Bench.{
  bench, bench_accepts, bench_registers, platform, powered_on, bank_peek,
}

abbrev no_tasks : Tasks (Hardware bench)
no_tasks = record {
  assoc_set_pid = λ task class_id. fail Retval.error;
  assoc_get_pid = λ task. fail Retval.error;
  assign_pid = λ technology tasks. fail Retval.error;
  release_pid = λ tasks. fail Retval.error;
  pid_assoc = λ class_id. fail Retval.error;
}

abbrev entry : ℕ → ℕ → L3ca
entry class mask = record { class_id = class; cdp = false; data_mask = mask; code_mask = 0 }

abbrev msr_side : Backend (Hardware bench)
msr_side = hw_backend bench true true (entry 0 0) []

abbrev backends : Backends (Hardware bench)
backends = linked bench true true (entry 0 0) [] msr_side no_tasks

abbrev running : Library (Hardware bench)
running = record {
  init_done = true;
  interface = msr;
  events = [];
  state = record { platform = platform false 8; registers = powered_on };
}

-- A library on the same MSR functions and with other functions for the OS.
abbrev other_backends : Backends (Hardware bench)
other_backends = record backends { os = backends.hw }

perform-Outcome_example :
    (perform backends (l3ca_set 1 (some (entry 3 0xf ∷ []))) running
      ≡ perform other_backends (l3ca_set 1 (some (entry 3 0xf ∷ []))) running)
    × Outcome running
        (perform backends (l3ca_set 1 (some (entry 3 0xf ∷ []))) running).0
        (perform backends (l3ca_set 1 (some (entry 3 0xf ∷ []))) running).1
perform-Outcome_example =
    perform-Outcome backends other_backends (l3ca_set 1 (some (entry 3 0xf ∷ []))) running refl

abbrev after_call : Library (Hardware bench)
after_call = (perform backends (assoc_get 2 true) running).1

Reach-Kept_example : Kept backends running after_call
Reach-Kept_example =
    Reach-Kept backends running after_call none_yet (next running (assoc_get 2 true) here)

pqos_l3ca_set-runs_example :
    (All HasRuns (entry 3 0x5 ∷ [])
      → pqos_l3ca_set backends 1 (some (entry 3 0x5 ∷ [])) running
        ≡ under_lock (dispatch backends (λ i. i.l3ca_set 1 (entry 3 0x5 ∷ []))) running)
    × (¬ All HasRuns (entry 3 0x5 ∷ [])
        → pqos_l3ca_set backends 1 (some (entry 3 0x5 ∷ [])) running
          ≡ (err Retval.param, record running { events = unlocked ∷ locked ∷ [] }))
pqos_l3ca_set-runs_example =
    pqos_l3ca_set-runs backends 1 (entry 3 0x5) [] running refl ((omega arith, omega arith), tt)

abbrev blank : List L3ca
blank = entry 0 0 ∷ entry 0 0 ∷ entry 0 0 ∷ entry 0 0 ∷ entry 0 0 ∷ entry 0 0 ∷ entry 0 0 ∷ []

contiguous : all_l3_contiguous (entry 3 0xf ∷ entry 5 0x3 ∷ []) ≡ true
contiguous =
    (all_l3_contiguous_iff (entry 3 0xf ∷ entry 5 0x3 ∷ [])
        ((omega arith, omega arith), ((omega arith, omega arith), tt))).1
      (((0, 3, refl), λ e. cc), (((0, 1, refl), λ e. cc), tt))

pqos_l3ca_get-set_example :
    let (r, l') = pqos_l3ca_set backends 1 (some (entry 3 0xf ∷ entry 5 0x3 ∷ [])) running in
    (r ≡ ok tt)
    × ((out : List L3ca) × ((pqos_l3ca_get backends 1 true (some (entry 0 0 ∷ blank)) l').0
          ≡ ok out)
        × HasWays out 3 (
            last_ways
              (entry 3 0xf ∷ entry 5 0x3 ∷ [])
              3
              (bank_peek powered_on 2 (msr_l3ca_mask_start + 3))))
unfolding l3ca_get_cos_num l3ca_cdp_enabled get_one_core
pqos_l3ca_get-set_example =
    pqos_l3ca_get-set bench true true (entry 0 0) [] msr_side no_tasks running 1 8 2 3 (true, false)
      (entry 3 0xf) (entry 0 0) (entry 5 0x3 ∷ []) blank bench_accepts bench_registers refl refl
      refl refl refl refl (omega arith) (omega arith) (omega arith) (omega arith) (omega arith)
      (refl, (refl, tt)) contiguous
