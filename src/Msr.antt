-- ===== src/Msr.antt =====
-- What the allocation code of lib/allocation.c uses of lib/machine.h: `msr_read` and `msr_write`,
-- as an interface, and what it relies on of the registers behind them.
pub mod Access
pub mod Writes
pub mod Keeps
use multi_resource_isolation.Prelude.{ℕ, ◌^◌, ◌<◌, ◌≡◌, ◌≢◌, Bool, true, false, Option, none, some}
use multi_resource_isolation.Types.{Result, ok, err, Retval, Action}

-- `msr_read(lcore, reg, &value)` and `msr_write(lcore, reg, value)`. `none` and `false` are the
-- codes other than MACHINE_RETVAL_OK, which the callers do not tell apart.
pub record Msr : Type 1 where
  pub State : Type 0
  pub read : ℕ → ℕ → State → Option ℕ × State
  pub write : ℕ → ℕ → ℕ → State → Bool × State

-- PQOS_MSR_ASSOC, and the first of the bandwidth registers, where hardware may round a value.
abbrev pub msr_assoc : ℕ
msr_assoc = 0xC8F

abbrev pub msr_mba_mask_start : ℕ
msr_mba_mask_start = 0xD50

-- The registers as hardware keeps them. `peek s core reg` is the 64-bit value that `core` sees;
-- cores of one `domain` of a register share it (a package, an L2 cluster, or a core alone).
pub record Registers (m : Msr) : Type 0 where
  pub peek : m.State → ℕ → ℕ → ℕ
  pub domain : ℕ → ℕ → ℕ
  pub word : (s : m.State) (core reg : ℕ) → peek s core reg < 2 ^ 64
  pub read_value :
      (core reg v : ℕ) (s : m.State) → (m.read core reg s).0 ≡ some v → v ≡ peek s core reg
  pub read_keeps :
      (core reg : ℕ) (s : m.State) (c r : ℕ) → peek (m.read core reg s).1 c r ≡ peek s c r
  pub write_value :
      (core reg v : ℕ) (s : m.State) (c : ℕ)
      → (m.write core reg v s).0 ≡ true
      → reg < msr_mba_mask_start
      → v < 2 ^ 64
      → domain reg c ≡ domain reg core
      → peek (m.write core reg v s).1 c reg ≡ v
  pub write_elsewhere :
      (core reg v : ℕ) (s : m.State) (c : ℕ)
      → domain reg c ≢ domain reg core
      → peek (m.write core reg v s).1 c reg ≡ peek s c reg
  pub write_others :
      (core reg v : ℕ) (s : m.State) (c r : ℕ)
      → r ≢ reg
      → peek (m.write core reg v s).1 c r ≡ peek s c r
  pub write_refused :
      (core reg v : ℕ) (s : m.State) (c r : ℕ)
      → (m.write core reg v s).0 ≡ false
      → peek (m.write core reg v s).1 c r ≡ peek s c r

-- A driver that refuses no access.
pub record Accepts (m : Msr) : Type 0 where
  pub reads : (core reg : ℕ) (s : m.State) → (v : ℕ) × ((m.read core reg s).0 ≡ some v)
  pub writes : (core reg v : ℕ) (s : m.State) → (m.write core reg v s).0 ≡ true

module _ (m : Msr) where
  -- `if (msr_read(...) != MACHINE_RETVAL_OK) return PQOS_RETVAL_ERROR;`
  abbrev pub read_msr : ℕ → ℕ → Action m.State ℕ
  read_msr core reg s =
      let (v, s') = m.read core reg s in (elim v [ some x ↦ ok x | none ↦ err Retval.error ], s')

  -- `if (msr_write(...) != MACHINE_RETVAL_OK) return PQOS_RETVAL_ERROR;`
  abbrev pub write_msr : ℕ → ℕ → ℕ → Action m.State (Unit {0})
  write_msr core reg v s =
      let (done, s') = m.write core reg v s in
      (elim done [ true ↦ ok tt | false ↦ err Retval.error ], s')
