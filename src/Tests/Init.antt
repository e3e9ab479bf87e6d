-- ===== src/Tests/Init.antt =====
-- The set-up with parts that all succeed; the state counts the calls that open or close the lock.
use multi_resource_isolation.Prelude.{ℕ, ◌+◌, Bool, true, false, some, none}
use multi_resource_isolation.Types.{ok, Result}
use multi_resource_isolation.Cap.{msr}
use multi_resource_isolation.Init.{
  Config, Parts, allowed, lock_init, init_locked, services, with_log, with_cpu, with_machine,
  conclude, pqos_init, pqos_fini,
}
use multi_resource_isolation.Init.Ready.{
  Settled, Ready, is_down, down, up, here, inits, finishes, pqos_init-Settled, Reach-Ready,
}
use multi_resource_isolation.Tests.Bench.{four_cores, caps}

abbrev fine : ℕ → Bool × ℕ
fine s = (true, s + 1)

abbrev done : ℕ → Result (Unit {0}) × ℕ
done s = (ok tt, s)

abbrev all_parts : Parts ℕ
all_parts = record {
  open_lock = fine;
  mutex_init = fine;
  close_lock = fine;
  mutex_destroy = fine;
  log_init = λ c. done;
  log_fini = done;
  cpuinfo_init = λ s. (ok (some four_cores), s);
  cpuinfo_fini = λ s. (true, s);
  machine_init = λ n. done;
  machine_fini = done;
  discover_capabilities = λ cpu s. (ok (caps false 8), s);
  discover_os_capabilities = λ i cap s. (ok tt, cap, s);
  log_hw_caps = λ cap. done;
  utils_init = λ i. done;
  api_init = λ i. done;
  mon_init = λ cpu cap c. done;
  alloc_init = λ cpu cap c. done;
  mon_fini = λ s. s;
  alloc_fini = λ s. s;
}

abbrev on_msr : Config
on_msr = record { fd_log = 1; callback_log = 0; context_log = 0; verbose = 0; interface = some msr }

pqos_init-Settled_example : Settled {S = ℕ} (ok tt) (up four_cores (caps false 8) 2)
unfolding pqos_init allowed lock_init init_locked services with_log with_cpu with_machine conclude
pqos_init-Settled_example = pqos_init-Settled all_parts none (some on_msr) 0

Reach-Ready_example :
    Ready (pqos_fini all_parts (pqos_init all_parts none (some on_msr) (down 0)).1).1
Reach-Ready_example =
    Reach-Ready all_parts (down 0)
      (pqos_fini all_parts (pqos_init all_parts none (some on_msr) (down 0)).1).1 (is_down 0)
      (finishes (pqos_init all_parts none (some on_msr) (down 0)).1
        (inits (down 0) none (some on_msr) here))
