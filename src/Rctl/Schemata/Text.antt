-- ===== src/Rctl/Schemata/Text.antt =====
-- lib/resctrl_alloc.c, `resctrl_alloc_schemata_read` and `resctrl_alloc_schemata_write`.
pub mod Cutting
pub mod Lexing
pub mod Setting
pub mod Pairs
pub mod Steps
pub mod Tables
pub mod RoundTrip
use multi_resource_isolation.Prelude.{
  ℕ, zero, suc, ◌+◌, ◌-◌, Bool, true, false, not, ltb, leb, ◌==◌, ◌||◌, ◌&&◌, if◌then◌else◌, List,
  [], ◌∷◌, ◌++◌, Option, none, some, map,
}
use multi_resource_isolation.Types.{Result, ok, err, Retval, Action}
use multi_resource_isolation.Alloc.L3.{L3ca, ways_mask}
use multi_resource_isolation.Alloc.L2.{L2ca}
use multi_resource_isolation.Alloc.Mba.{Mba}
use multi_resource_isolation.Rctl.{File, Files, read_text, write_text}
use multi_resource_isolation.Rctl.Number.{print_number, skip_spaces, strtouint64}
use multi_resource_isolation.Rctl.Schemata.{Schemata, SchemataType, schemata_set}

abbrev pub label_of : SchemataType → List ℕ
label_of SchemataType.l2_type = b'L' ∷ b'2' ∷ []
label_of SchemataType.l3_type = b'L' ∷ b'3' ∷ []
label_of SchemataType.l3code_type = b'L' ∷ b'3' ∷ b'C' ∷ b'O' ∷ b'D' ∷ b'E' ∷ []
label_of SchemataType.l3data_type = b'L' ∷ b'3' ∷ b'D' ∷ b'A' ∷ b'T' ∷ b'A' ∷ []
label_of SchemataType.mb_type = b'M' ∷ b'B' ∷ []

-- Rates are decimal, masks hexadecimal.
abbrev pub base_of : SchemataType → ℕ
base_of SchemataType.mb_type = 10
base_of _ = 16

-- `fgets` into a buffer for `size` characters: a line ends after its newline, or when there is no
-- room for another.
abbrev pub buf_size : ℕ
buf_size = 16383

abbrev pub prepend : ℕ → List (List ℕ) → List (List ℕ)
prepend c [] = (c ∷ []) ∷ []
prepend c (l ∷ ls) = (c ∷ l) ∷ ls

unfoldable pub lines : ℕ → ℕ → List ℕ → List (List ℕ)
lines size room [] = []
lines size room (c ∷ cs) =
    let fresh = lines size size cs in
    let more = lines size (room - 1) cs in
    if (c == b'\n') || leb room 1 then (c ∷ []) ∷ fresh else prepend c more

-- `strchr` and a cut at the character it finds.
unfoldable pub cut_at : ℕ → List ℕ → Option (List ℕ × List ℕ)
cut_at x [] = none
cut_at x (c ∷ cs) =
    let rest = cut_at x cs in
    if c == x then some ([], cs) else elim rest [ none ↦ none | some (l, r) ↦ some (c ∷ l, r) ]

-- `strtok_r` with one delimiter: the pieces between delimiters, the empty ones left out.
unfoldable pub pieces : ℕ → List ℕ → List (List ℕ)
pieces x [] = [] ∷ []
pieces x (c ∷ cs) = let rest = pieces x cs in if c == x then [] ∷ rest else prepend c rest

unfoldable pub drop_empty : List (List ℕ) → List (List ℕ)
drop_empty [] = []
drop_empty ([] ∷ ls) = drop_empty ls
drop_empty ((c ∷ cs) ∷ ls) = (c ∷ cs) ∷ drop_empty ls

unfoldable pub tokens : List ℕ → List (List ℕ)
tokens text = drop_empty (pieces b';' text)

-- `strcasecmp`
abbrev pub lower : ℕ → ℕ
lower c = if leb b'A' c && leb c b'Z' then c + 32 else c

unfoldable pub same_text : List ℕ → List ℕ → Bool
same_text [] [] = true
same_text (c ∷ cs) (d ∷ ds) = (lower c == lower d) && same_text cs ds
same_text _ _ = false

unfoldable pub type_get : List ℕ → Option SchemataType
type_get label =
    if same_text label (label_of SchemataType.l2_type)
    then some SchemataType.l2_type
    else if same_text label (label_of SchemataType.l3_type)
    then some SchemataType.l3_type
    else if same_text label (label_of SchemataType.l3code_type)
    then some SchemataType.l3code_type
    else if same_text label (label_of SchemataType.l3data_type)
    then some SchemataType.l3data_type
    else if same_text label (label_of SchemataType.mb_type)
    then some SchemataType.mb_type
    else none

-- One `id=value` of a line.
unfoldable pub read_token : SchemataType → List ℕ → Schemata → Result Schemata
read_token type token s = elim (cut_at b'=' token) [
  | none ↦ err Retval.error
  | some (l, r) ↦ elim (strtouint64 10 l) [
    | none ↦ err Retval.error
    | some id ↦ elim (strtouint64 (base_of type) r) [
      | none ↦ err Retval.error
      | some value ↦ schemata_set id value type s
    ]
  ]
]

unfoldable pub read_tokens : SchemataType → List (List ℕ) → Schemata → Result Schemata
read_tokens type [] s = ok s
read_tokens type (t ∷ ts) s = elim (read_token type t s) [
  | err e ↦ err e
  | ok s' ↦ read_tokens type ts s'
]

-- One line; an unknown label is skipped.
unfoldable pub read_line : List ℕ → Schemata → Result Schemata
read_line line s = elim (cut_at b':' (skip_spaces line)) [
  | none ↦ err Retval.error
  | some (label, rest) ↦ elim (type_get label) [
    | none ↦ ok s
    | some type ↦ read_tokens type (tokens rest) s
  ]
]

unfoldable pub read_lines : List (List ℕ) → Schemata → Result Schemata
read_lines [] s = ok s
read_lines (l ∷ ls) s = elim (read_line l s) [ err e ↦ err e | ok s' ↦ read_lines ls s' ]

-- What `schemata_write` prints.
unfoldable pub print_entry : ℕ → ℕ → ℕ → List ℕ
print_entry base i v = print_number 10 i (b'=' ∷ print_number base v [])

unfoldable pub print_entries : ℕ → ℕ → List ℕ → List ℕ
print_entries base i [] = []
print_entries base i (v ∷ vs) =
    (if ltb 0 i then b';' ∷ [] else []) ++ (print_entry base i v ++ print_entries base (i + 1) vs)

unfoldable pub print_line : SchemataType → List ℕ → List ℕ
print_line type vs = label_of type ++ (b':' ∷ (print_entries (base_of type) 0 vs ++ (b'\n' ∷ [])))

-- A line for a table that is not empty.
unfoldable pub print_table : SchemataType → List ℕ → List ℕ
print_table type [] = []
print_table type (v ∷ vs) = print_line type (v ∷ vs)

unfoldable pub print_l3 : List L3ca → List ℕ
print_l3 [] = []
print_l3 (ca ∷ cas) =
    if not ca.cdp
    then print_line SchemataType.l3_type (map ways_mask (ca ∷ cas))
    else print_line SchemataType.l3code_type (map (λ (c : L3ca). c.code_mask) (ca ∷ cas))
      ++ print_line SchemataType.l3data_type (map (λ (c : L3ca). c.data_mask) (ca ∷ cas))

unfoldable pub print_schemata : Schemata → List ℕ
print_schemata s =
    print_table SchemataType.l2_type (map (λ (c : L2ca). c.ways_mask) s.l2ca)
    ++ (print_l3 s.l3ca ++ print_table SchemataType.mb_type (map (λ (m : Mba). m.mb_rate) s.mba))

module _ {S : Type 0} (fs : Files S) where
  unfoldable pub schemata_read : ℕ → Schemata → Action S Schemata
  schemata_read class_id schemata s =
      let (text, s') = read_text fs class_id File.schemata s in
      (elim text [ err e ↦ err e | ok t ↦ read_lines (lines buf_size buf_size t) schemata ], s')

  unfoldable pub schemata_write : ℕ → Schemata → Action S (Unit {0})
  schemata_write class_id schemata = write_text fs class_id File.schemata (print_schemata schemata)
