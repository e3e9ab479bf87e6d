-- ===== src/Lib.antt =====
-- A model of the Intel RDT library of this repository (lib/*.c): the calls that divide cache and
-- memory bandwidth between cores and that watch their use, down to the register accesses they make,
-- and the discovery of what the hardware offers.
--
-- The parts and how they interact. Clients call `pqos_*` of lib/api.c, which takes a lock, checks
-- arguments and calls one of two interfaces. On the MSR interface, `hw_*` of lib/allocation.c find
-- cores, sockets and clusters in a table (`pqos_cpu_*` of lib/utils.c) and classes and features in
-- another (`pqos_cap_*` of lib/utils.c), and read and write model-specific registers of a core
-- (`msr_read` and `msr_write` of lib/machine.c). On the OS interface, `os_*` of lib/os_allocation.c
-- use the same tables, and read and write the files of resctrl through lib/resctrl_alloc.c.
-- Monitoring, `hw_mon_*` of lib/monitoring.c, uses the same tables and registers: the class and the
-- RMID of a core are two halves of one register. The core table is built by lib/cpuinfo.c and the
-- table of capabilities by lib/cap.c, from CPUID and registers.
--
-- The files:
--   Prelude   the native ℕ, tests on numbers, lists, and facts on bit masks
--   Types     return codes, results, and calls that work on a state
--   Mask      `is_contiguous` of lib/api.c
--   Cpu       the core table and the topology queries of lib/utils.c
--   Cap       the capability table, the queries of lib/utils.c, and the switch of CDP of lib/cap.c
--   Machine   lib/machine.c on Linux: the descriptors of the MSR driver, which is a parameter
--   Msr       register reads and writes as an interface that the allocation code is given, and what
--             it relies on: a read gives the 64-bit value of the register, a write that succeeds
--             sets it for the cores that share it, and changes nothing else
--   Alloc     lib/allocation.c: L3, L2 and MBA class tables (`hw_l3ca_*`, `hw_l2ca_*`, `hw_mba_*`),
--             core associations (Assoc), the choice of a free class (Assign), the reset of all of it
--             (Reset), and the search for the fewest mask bits (MinCbm)
--   Mon       lib/monitoring.c: the RMID of a core (Assoc), the choice of a free RMID (Rmid), the
--             performance counters (Perf), groups that start and stop (Start), and the reading of
--             counters and what is made of it (Poll)
--   Info      lib/cpuinfo.c: the fields of APIC ids and the caches from CPUID, and the core table
--   Discover  the discovery of capabilities in lib/cap.c: monitoring (Monitoring), L3, with its CDP
--             (L3), L2 and bandwidth allocation, and the table of what was found
--   Rctl      lib/resctrl_alloc.c over a parameter for the files of resctrl: the mask of a class's
--             cores (Cpumask), numbers as text (Number), the number of groups (Groups), the masks and
--             rates of a class with their file (Schemata), and its tasks (Tasks)
--   Os        lib/os_allocation.c over the files of Rctl: cores and the choice of a free group (with
--             Search and Free about them), the tables of classes (Masks), tasks (Tasks), and the
--             set-up and reset (Setup, with Groups about it), which take `mount`, `mkdir` and their
--             like as a parameter
--   Api       lib/api.c with the lock of lib/cap.c: the entry points on tables (Tables) and on cores
--             and tasks (Cores), over two parameters for the functions of the MSR and the OS
--             interface; Hw is the first of them, filled with the functions of Alloc. Calls gathers
--             these entry points as one type, all but `pqos_pid_get_pid_assoc`, Atomic gives each as
--             one step, Outcome is about how a call ends and on what it depends, Locking runs
--             sequences of them, Masks is about their checks, and Client about a caller on the MSR
--             interface; Mon has the entry points on monitoring, and Groups is about the groups they
--             start
--   Init      `pqos_init`, `pqos_fini` and `pqos_cap_get` of lib/cap.c over a record of the functions
--             that they call; During is about a set-up under way, and Ready about the states in
--             which the functions leave the library
--   Tests     a bench of four cores in two packages, and the functions run on it
--
-- Correspondence. A function keeps its name, without the prefix `pqos_`, `pqos_cpu_` or `pqos_cap_` in
-- Cpu and Cap and `resctrl_alloc_` in Rctl. A call that touches registers or files is a function from
-- their state to a result and the state it leaves, on an error too; the globals `m_cap`, `m_cpu` and
-- `m_interface` are the record `Platform`. A table and its length are one list; `malloc` is a Boolean argument that says
-- whether the memory was granted, and an output argument is part of the result. An output that the
-- C code sets before a later error is dropped with the error. Machine-width arithmetic is written
-- out (`u32`, `u64`).
--
-- Loops are structural recursion over lists or over the number of rounds that the C loop makes.
-- `is_contiguous` shifts at most 64 times, one round for each bit of its argument. The proofs about
-- L3 registers take at most 128 of them, and those about L2 registers at most 64, which is how many
-- fit below the registers that follow; a bandwidth register may round, so that nothing is assumed
-- of its value after a write. A counter is read three times at most, and `nearest_pow2` doubles at
-- most 32 times, one for each bit. The two loops of lib/cpuinfo.c over the sub-leaves of CPUID have
-- no bound; here they are cut off after a number of rounds that is an argument, with a result of
-- its own.
--
-- Three expressions of lib/allocation.c have no meaning in C for some of their arguments, and there
-- their values are a parameter (`Undefined` of Alloc): `(1ULL << num_ways) - 1ULL` from 64 ways on,
-- `(1 << ways) - 1` from 31 ways on, and `used_classes[cos]` past the 16 entries of that array.
--
-- CPUID, the affinity of the task, the number of processors and the `read` of a perf descriptor are
-- parameters of Info, Discover and Mon. A mask of events is a number, and a `double` the quotient
-- that it stands for. The proofs about RMIDs take them to have 10 bits, as the field of the register
-- has. An ASSERT is there in debug builds only, and not in the model.
--
-- The C library's functions on text (`strtoull`, `strtok_r`, `fgets`, `printf` and their like) are
-- modelled for what the code passes to them. `%x` and `%u` print a 64-bit number in 64 rounds or
-- fewer, and no line of a printed schemata file with 100 entries or fewer is too long for `fgets`.
-- A file holds no character 0. The lock is an event of the library's history.
--
-- Not modelled: that the functions of Machine satisfy what Msr relies on, that the records of
-- functions of Api.Mon are filled with those of Mon, what the OS supports (`discover_os_*` of lib/cap.c), the pointers that
-- lib/monitoring.c and lib/cpuinfo.c keep from their `init` functions (their tables are arguments
-- here), that Init's record of functions is filled with those of the other parts, the list of a class's tasks (`resctrl_alloc_task_read`,
-- `os_pid_get_pid_assoc`), the files of lib/os_allocation.c that hold the fewest mask bits,
-- monitoring through the OS (lib/os_monitoring.c, lib/perf.c), the log, and the tools pqos and
-- rdtset.
pub mod Prelude
pub mod Types
pub mod Mask
pub mod Cpu
pub mod Cap
pub mod Msr
pub mod Machine
pub mod Alloc
pub mod Rctl
pub mod Os
pub mod Info
pub mod Discover
pub mod Api
pub mod Init
pub mod Mon
pub mod Tests
