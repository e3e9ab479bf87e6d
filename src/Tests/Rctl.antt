-- ===== src/Tests/Rctl.antt =====
-- Files of resctrl written and read on a disk that keeps what it is given.
use multi_resource_isolation.Prelude.{
  ℕ, zero, suc, ◌/◌, ◌%◌, ◌<◌, ◌≡◌, refl, true, List, [], ◌∷◌, some, arith, length, get_or, bit,
  if◌then◌else◌, ◌==◌, replicate, All,
}
use multi_resource_isolation.Types.{ok}
use multi_resource_isolation.Alloc.L3.{L3ca}
use multi_resource_isolation.Rctl.{Files}
use multi_resource_isolation.Rctl.Cpumask.{
  tab_size, cpumask_set, cpumask_get, cpumask_read, print_bytes, buffer, cpumask_get-cpumask_set,
}
use multi_resource_isolation.Rctl.Cpumask.Reading.{digits_back, cpumask_read_lem}
use multi_resource_isolation.Rctl.Cpumask.Printing.{IsByte, cpumask_get-print_bytes}
use multi_resource_isolation.Rctl.Schemata.{Schemata}
use multi_resource_isolation.Rctl.Schemata.Text.{buf_size, lines, read_lines, print_schemata}
use multi_resource_isolation.Rctl.Schemata.Text.Tables.{Printable}
use multi_resource_isolation.Rctl.Schemata.Text.RoundTrip.{read_lines-print_schemata}

abbrev Disk : Type 0
Disk = List ℕ

abbrev disk : Files Disk
disk = record {
  read_file = λ class_id name s. (some s, s);
  write_file = λ class_id name text s. (true, text);
}

-- `1f,0000000a` and a newline: cores 1, 3 and 32 to 36.
abbrev cpus_text : List ℕ
cpus_text = b'1' ∷ b'f' ∷ b',' ∷ b'0' ∷ b'0' ∷ b'0' ∷ b'0' ∷ b'0' ∷ b'0' ∷ b'0' ∷ b'a' ∷ b'\n' ∷ []

abbrev no_cores : List ℕ
no_cores = replicate tab_size 0

cpumask_get-cpumask_set_example :
    cpumask_get 9 (cpumask_set 8 no_cores) ≡ (if 8 == 9 then 1 else cpumask_get 9 no_cores)
cpumask_get-cpumask_set_example =
    cpumask_get-cpumask_set 8 9 no_cores refl (omega arith) (omega arith)

cpumask_read_lem_example :
    (tab : List ℕ) × (cpumask_read disk 1 cpus_text ≡ (ok tab, cpus_text))
    × (length tab ≡ tab_size)
    × ((j : ℕ)
        → j < 4096
        → cpumask_get j tab ≡ bit (j % 4) (get_or 0 (j / 4) (digits_back (buffer cpus_text))))
cpumask_read_lem_example = cpumask_read_lem disk 1 cpus_text cpus_text cpus_text refl

All-replicate : (n : ℕ) → All IsByte (replicate n 0)
All-replicate zero = tt
All-replicate (suc n) = (omega arith, All-replicate n)

cpumask_get-print_bytes_example :
    bit (9 % 4) (get_or 0 (9 / 4) (digits_back (print_bytes 0 no_cores))) ≡ cpumask_get 9 no_cores
cpumask_get-print_bytes_example =
    cpumask_get-print_bytes no_cores 9 refl (All-replicate tab_size) (omega arith)

abbrev l3_entry : ℕ → ℕ → L3ca
l3_entry d c = record { class_id = 2; cdp = true; data_mask = d; code_mask = c }

abbrev with_masks : ℕ → ℕ → ℕ → ℕ → Schemata
with_masks ways d c rate = record {
  l3ca = l3_entry d c ∷ l3_entry c d ∷ [];
  l2ca = record { class_id = 2; ways_mask = ways } ∷ [];
  mba = record { class_id = 2; mb_rate = rate } ∷ [];
}

abbrev printed : Schemata
printed = with_masks 0x3f 0xff0 0xf 90

printed-Printable : Printable printed
printed-Printable = record {
  few = (omega arith, omega arith, omega arith);
  l2_masks = (omega arith, tt);
  data_masks = (omega arith, (omega arith, tt));
  code_masks = (omega arith, (omega arith, tt));
  rates = (omega arith, tt);
}

read_lines-print_schemata_example :
    read_lines (lines buf_size buf_size (print_schemata printed)) (with_masks 0 0 0 100)
    ≡ ok printed
read_lines-print_schemata_example =
    read_lines-print_schemata (with_masks 0 0 0 100) printed true printed-Printable (refl, tt)
      ((refl, refl, refl, λ e. cc), ((refl, refl, refl, λ e. cc), tt)) (refl, tt)
