-- ===== src/Tests/Bench.antt =====
-- Registers kept as a function, behind a driver that accepts every access; two cores to a package.
use multi_resource_isolation.Prelude.{
  ℕ, ◌/◌, ◌^◌, ◌<◌, ◌≡◌, ◌≢◌, refl, Bool, true, false, Option, some, arith, ◌==◌, ◌&&◌,
  if◌then◌else◌, u64, [], ◌∷◌,
}
use multi_resource_isolation.Msr.{Msr, Registers, Accepts, msr_assoc}
use multi_resource_isolation.Alloc.Assoc.Field.{PerCore}
use multi_resource_isolation.Cpu.{Coreinfo, Cacheinfo, Cpuinfo}
use multi_resource_isolation.Cap.{
  Cap, CapL3ca, CapL2ca, CapMba, l3ca_item, l2ca_item, mba_item, msr,
}
use multi_resource_isolation.Alloc.{Platform, Undefined}

abbrev pub package_of : ℕ → ℕ → ℕ
package_of reg core = if reg == msr_assoc then core else core / 2

abbrev pub Bank : Type 0
Bank = ℕ → ℕ → ℕ

abbrev pub bank_read : ℕ → ℕ → Bank → Option ℕ × Bank
bank_read core reg s = (some (u64 (s (package_of reg core) reg)), s)

abbrev pub bank_write : ℕ → ℕ → ℕ → Bank → Bool × Bank
bank_write core reg v s = (true, λ d r. if d == package_of reg core && r == reg then v else s d r)

abbrev pub bench : Msr
bench = record { State = Bank; read = bank_read; write = bank_write }

abbrev pub bank_peek : Bank → ℕ → ℕ → ℕ
bank_peek s core reg = u64 (s (package_of reg core) reg)

pub bench_accepts : Accepts bench
bench_accepts = record {
  reads = λ core reg s. (bank_peek s core reg, refl);
  writes = λ core reg v s. refl;
}

pub bench_value :
    (core reg v : ℕ) (s : Bank) (c : ℕ)
    → v < 2 ^ 64
    → package_of reg c ≡ package_of reg core
    → bank_peek (bank_write core reg v s).1 c reg ≡ v
bench_value core reg v s c word near = ground arith

pub bench_read :
    (core reg v : ℕ) (s : Bank) → (bank_read core reg s).0 ≡ some v → v ≡ bank_peek s core reg
bench_read core reg v s h = ground arith

pub bench_elsewhere :
    (core reg v : ℕ) (s : Bank) (c : ℕ)
    → package_of reg c ≢ package_of reg core
    → bank_peek (bank_write core reg v s).1 c reg ≡ bank_peek s c reg
bench_elsewhere core reg v s c far = ground arith

pub bench_others :
    (core reg v : ℕ) (s : Bank) (c r : ℕ)
    → r ≢ reg
    → bank_peek (bank_write core reg v s).1 c r ≡ bank_peek s c r
bench_others core reg v s c r ne = ground arith

pub bench_refused :
    (core reg v : ℕ) (s : Bank) (c r : ℕ)
    → (bank_write core reg v s).0 ≡ false
    → bank_peek (bank_write core reg v s).1 c r ≡ bank_peek s c r
bench_refused core reg v s c r h = cc

pub bench_word : (s : Bank) (core reg : ℕ) → bank_peek s core reg < 2 ^ 64
bench_word s core reg = omega arith

abbrev pub bench_registers : Registers bench
bench_registers = record {
  peek = bank_peek;
  domain = package_of;
  word = bench_word;
  read_value = bench_read;
  read_keeps = λ core reg s c r. refl;
  write_value = λ core reg v s c done low word near. bench_value core reg v s c word near;
  write_elsewhere = bench_elsewhere;
  write_others = bench_others;
  write_refused = bench_refused;
}

pub bench_PerCore : PerCore bench_registers
bench_PerCore c d e = e

abbrev pub cache : Cacheinfo
cache = record {
  detected = true;
  num_ways = 11;
  num_sets = 32;
  num_partitions = 1;
  line_size = 64;
  total_size = 22528;
  way_size = 2048;
}

abbrev pub core_entry : ℕ → ℕ → ℕ → Coreinfo
core_entry lcore socket l2_id = record {
  lcore = lcore;
  socket = socket;
  l3_id = socket;
  l2_id = l2_id;
}

abbrev pub four_cores : Cpuinfo
four_cores = record {
  l2 = cache;
  l3 = cache;
  cores = core_entry 0 0 0 ∷ core_entry 1 0 1 ∷ core_entry 2 1 2 ∷ core_entry 3 1 3 ∷ [];
}

abbrev pub l3_cap : Bool → ℕ → CapL3ca
l3_cap cdp_on classes = record {
  num_classes = classes;
  num_ways = 11;
  way_size = 2048;
  way_contention = 0;
  cdp = true;
  cdp_on = cdp_on;
}

abbrev pub l2_cap : CapL2ca
l2_cap = record { num_classes = 4; num_ways = 8; way_size = 1024; way_contention = 0 }

abbrev pub mba_cap : CapMba
mba_cap = record { num_classes = 8; throttle_max = 90; throttle_step = 10; is_linear = true }

abbrev pub caps : Bool → ℕ → Cap
caps cdp_on classes = record {
  version = 10200;
  capabilities =
      record { os_support = true; u = l3ca_item (l3_cap cdp_on classes) }
      ∷ record { os_support = true; u = l2ca_item l2_cap }
      ∷ record { os_support = true; u = mba_item mba_cap }
      ∷ [];
}

abbrev pub all_zero : Undefined
all_zero = record { shift64 = λ n. 0; shift_int = λ n. 0; past_classes = λ k. false }

abbrev pub platform : Bool → ℕ → Platform
platform cdp_on classes = record {
  interface = msr;
  cap = caps cdp_on classes;
  cpu = four_cores;
  undefined = all_zero;
}

-- Each register holds its own number.
abbrev pub powered_on : Bank
powered_on d r = r
