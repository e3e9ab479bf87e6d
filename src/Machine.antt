-- ===== src/Machine.antt =====
-- lib/machine.c on Linux: the table of descriptors of the MSR driver, one for each core, opened when
-- a core is first accessed. The driver is a parameter.
pub mod Table
use multi_resource_isolation.Prelude.{
  ℕ, zero, suc, ◌+◌, Bool, true, false, ltb, ◌==◌, if◌then◌else◌, u32, List, [], ◌∷◌, Option, none,
  some,
}

-- What the code calls of the system: `open` of the device of a core, `close`, and `pread` and
-- `pwrite` of 8 bytes, each of which may fail.
pub record Driver : Type 1 where
  pub World : Type 0
  pub open_msr : ℕ → World → Option ℕ × World
  pub close_fd : ℕ → World → World
  pub read_word : ℕ → ℕ → World → Option ℕ × World
  pub write_word : ℕ → ℕ → ℕ → World → Bool × World

-- The `MACHINE_RETVAL_*` codes with the value read.
pub data Outcome (A : Type 0) : Type 0 where
  machine_ok : A → Outcome A
  machine_error machine_param : Outcome A

-- `m_msr_fd`, NULL before `machine_init`, with `none` for -1; and `m_maxcores`.
pub record Machine (d : Driver) : Type 0 where
  pub msr_fd : Option (List (Option ℕ))
  pub maxcores : ℕ
  pub world : d.World

-- `m_msr_fd[i] = -1` for each of the first `n` cores.
unfoldable pub all_closed : ℕ → List (Option ℕ)
all_closed zero = []
all_closed (suc n) = none ∷ all_closed n

-- `m_msr_fd[lcore]` and its assignment. Out of range, where the callers never are, it is -1.
unfoldable pub fd_at : List (Option ℕ) → ℕ → Option ℕ
fd_at [] lcore = none
fd_at (fd ∷ fds) zero = fd
fd_at (fd ∷ fds) (suc lcore) = fd_at fds lcore

unfoldable pub set_fd : List (Option ℕ) → ℕ → ℕ → List (Option ℕ)
set_fd [] lcore new = []
set_fd (fd ∷ fds) zero new = some new ∷ fds
set_fd (fd ∷ fds) (suc lcore) new = fd ∷ set_fd fds lcore new

module _ (d : Driver) where
  unfoldable pub machine_init : Bool → ℕ → Machine d → Outcome (Unit {0}) × Machine d
  machine_init granted max_core_id s =
      if max_core_id == 0
      then (machine_param, s)
      else (if granted
          then (
            machine_ok tt,
            record s {
              msr_fd = some (all_closed (u32 (max_core_id + 1)));
              maxcores = u32 (max_core_id + 1);
            },
          )
          else (machine_error, record s { msr_fd = none; maxcores = 0 }))

  -- The loop of `machine_fini`.
  unfoldable pub close_all : List (Option ℕ) → d.World → d.World
  close_all [] w = w
  close_all (none ∷ fds) w = close_all fds w
  close_all (some fd ∷ fds) w = close_all fds (d.close_fd fd w)

  unfoldable pub machine_fini : Machine d → Outcome (Unit {0}) × Machine d
  machine_fini s = elim s.msr_fd [
    | none ↦ (machine_error, s)
    | some fds ↦
        (machine_ok tt, record { msr_fd = none; maxcores = 0; world = close_all fds s.world })
  ]

  -- `msr_file_open`, on the table.
  unfoldable pub msr_file_open : ℕ → List (Option ℕ) → Machine d → Option ℕ × Machine d
  msr_file_open lcore fds s = elim (fd_at fds lcore) [
    | some fd ↦ (some fd, s)
    | none ↦
        let (opened, w) = d.open_msr lcore s.world in
        elim opened [
          | none ↦ (none, record s { world = w })
          | some fd ↦ (some fd, record s { msr_fd = some (set_fd fds lcore fd); world = w })
        ]
  ]

  -- What `msr_read` and `msr_write` begin with: the checks, and the descriptor.
  abbrev pub on_fd :
      {A : Type 0}
      → (ℕ → Machine d → Outcome A × Machine d)
      → Option ℕ × Machine d
      → Outcome A × Machine d
  on_fd access (none, s) = (machine_error, s)
  on_fd access (some fd, s) = access fd s

  abbrev pub on_table :
      {A : Type 0}
      → ℕ
      → (ℕ → Machine d → Outcome A × Machine d)
      → Machine d
      → Option (List (Option ℕ))
      → Outcome A × Machine d
  on_table lcore access s none = (machine_error, s)
  on_table lcore access s (some fds) = on_fd access (msr_file_open lcore fds s)

  unfoldable pub with_fd :
      {A : Type 0} → ℕ → (ℕ → Machine d → Outcome A × Machine d) → Machine d → Outcome A × Machine d
  with_fd lcore access s =
      if ltb lcore s.maxcores then on_table lcore access s s.msr_fd else (machine_param, s)

  abbrev pub read_access : ℕ → ℕ → Machine d → Outcome ℕ × Machine d
  read_access reg fd s =
      let (value, w) = d.read_word fd reg s.world in
      (elim value [ none ↦ machine_error | some v ↦ machine_ok v ], record s { world = w })

  abbrev pub write_access : ℕ → ℕ → ℕ → Machine d → Outcome (Unit {0}) × Machine d
  write_access reg value fd s =
      let (done, w) = d.write_word fd reg value s.world in
      (elim done [ false ↦ machine_error | true ↦ machine_ok tt ], record s { world = w })

  unfoldable pub msr_read : ℕ → ℕ → Machine d → Outcome ℕ × Machine d
  msr_read lcore reg = with_fd lcore (read_access reg)

  unfoldable pub msr_write : ℕ → ℕ → ℕ → Machine d → Outcome (Unit {0}) × Machine d
  msr_write lcore reg value = with_fd lcore (write_access reg value)
