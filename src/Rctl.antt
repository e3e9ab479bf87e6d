-- ===== src/Rctl.antt =====
-- lib/resctrl_alloc.c: the files of the resctrl file system, through which the OS interface sets and
-- reads classes. The file system is a parameter.
pub mod Cpumask
pub mod Number
pub mod Groups
pub mod Schemata
pub mod Tasks
use multi_resource_isolation.Prelude.{
  ◌≡◌, arith, ◌<◌, ℕ, ◌+◌, ◌-◌, ◌*◌, Bool, true, false, ◌&&◌, ltb, leb, if◌then◌else◌, List, [],
  ◌∷◌, Option, none, some,
}
use multi_resource_isolation.Types.{Retval, Result, ok, err, Action}

-- `rctl_cpus`, `rctl_schemata` and `rctl_tasks`
pub data File : Type 0 where
  cpus schemata tasks : File

-- What the code asks of a file of a class, by its number: its characters, none of them 0, or to hold
-- new ones. `none` and `false` stand for a failure of `fopen`, of `fclose`, or of a transfer where the
-- code asks for it; where it reads by `fgets`, a failed transfer ends the text.
pub record Files (S : Type 0) : Type 0 where
  pub read_file : ℕ → File → S → Option (List ℕ) × S
  pub write_file : ℕ → File → List ℕ → S → Bool × S

module _ {S : Type 0} (fs : Files S) where
  -- Every such failure is PQOS_RETVAL_ERROR.
  abbrev pub read_text : ℕ → File → Action S (List ℕ)
  read_text class_id name s =
      let (text, s') = fs.read_file class_id name s in
      (elim text [ none ↦ err Retval.error | some t ↦ ok t ], s')

  abbrev pub write_text : ℕ → File → List ℕ → Action S (Unit {0})
  write_text class_id name text s =
      let (done, s') = fs.write_file class_id name text s in
      (elim done [ false ↦ err Retval.error | true ↦ ok tt ], s')

-- The value of a hexadecimal digit, by its character code.
unfoldable pub hex_value : ℕ → Option ℕ
hex_value c =
    if leb b'0' c && leb c b'9'
    then some (c - b'0')
    else if leb b'a' c && leb c b'f'
    then some (10 + c - b'a')
    else if leb b'A' c && leb c b'F'
    then some (10 + c - b'A')
    else none

-- A digit as `%x` prints it.
unfoldable pub hex_digit : ℕ → ℕ
hex_digit d = if ltb d 10 then d + b'0' else d - 10 + b'a'

pub hex_value-hex_digit : (d : ℕ) → d < 16 → hex_value (hex_digit d) ≡ some d
unfolding hex_value hex_digit
hex_value-hex_digit d h = ground arith
