-- ===== src/Rctl/Cpumask.antt =====
-- lib/resctrl_alloc.c, `resctrl_alloc_cpumask_*`: the mask of a class's cores and its file.
pub mod Reading
pub mod Printing
use multi_resource_isolation.Prelude.{
  ℕ, zero, suc, ◌+◌, ◌-◌, ◌*◌, ◌/◌, ◌%◌, ◌^◌, ◌≤◌, ◌<◌, ◌≡◌, refl, sym, ap, ◌∙◌, arith, max, bit_or,
  Bool, true, false, ◌&&◌, ltb, leb, ◌==◌, if◌then◌else◌, List, [], ◌∷◌, ◌++◌, Option, none, some,
  length, get_or, set, take, replicate, length-set, get_or-set, get_or-set_other, length-replicate,
  get_or-replicate, get_or-append, get_or-beyond, length-append, bit, or_byte, bit-pow, bit-zero,
  Bool-cases, inl, inr,
}
use multi_resource_isolation.Types.{Retval, Result, ok, err, Action}
use multi_resource_isolation.Rctl.{
  File, Files, read_text, write_text, hex_value, hex_digit, hex_value-hex_digit,
}

-- The bytes of the table: RESCTRL_ALLOC_MAX_CPUS / CHAR_BIT. The buffer for the file has as many
-- characters.
abbrev pub tab_size : ℕ
tab_size = 512

-- The table's place of a core, in 32-bit arithmetic.
abbrev pub item_of : ℕ → ℕ
item_of lcore = (tab_size - 1 + 2 ^ 32 - lcore / 8) % 2 ^ 32

-- A place beyond the table is undefined in the source: here nothing is stored and 0 is read.
unfoldable pub cpumask_set : ℕ → List ℕ → List ℕ
cpumask_set lcore tab =
    let item = item_of lcore in set item (bit_or (get_or 0 item tab) (2 ^ (lcore % 8)) % 2 ^ 8) tab

unfoldable pub cpumask_get : ℕ → List ℕ → ℕ
cpumask_get lcore tab = bit (lcore % 8) (get_or 0 (item_of lcore) tab)

-- What `cpumask_write` prints of a byte, and of the bytes from place `i`.
unfoldable pub print_byte : ℕ → List ℕ
print_byte b = hex_digit (b / 16) ∷ hex_digit (b % 16) ∷ []

unfoldable pub print_bytes : ℕ → List ℕ → List ℕ
print_bytes i [] = []
print_bytes i (b ∷ bs) =
    print_byte b ++ (if (i + 1) % 4 == 0 then b',' ∷ [] else []) ++ print_bytes (i + 1) bs

-- The state of the loop of `cpumask_read`.
pub record Scan : Type 0 where
  pub tab : List ℕ
  pub hex_offset : Bool
  pub idx : ℕ

-- One character: `if (!hex_offset) tab[idx] = hex_num; else tab[idx--] |= hex_num << 4;`
unfoldable pub scan_digit : Option ℕ → Scan → Scan
scan_digit none st = st
scan_digit (some hex_num) st =
    if st.hex_offset
    then record {
      tab = set st.idx (bit_or (get_or 0 st.idx st.tab) (hex_num * 16) % 2 ^ 8) st.tab;
      hex_offset = false;
      idx = st.idx - 1;
    }
    else record { tab = set st.idx hex_num st.tab; hex_offset = true; idx = st.idx }

-- The loop goes from the last character to the first.
unfoldable pub scan : List ℕ → Scan
scan [] = record { tab = replicate tab_size 0; hex_offset = false; idx = tab_size - 1 }
scan (c ∷ cs) = scan_digit (hex_value c) (scan cs)

-- The buffer: at most `tab_size` characters, the last of them overwritten by 0.
unfoldable pub buffer : List ℕ → List ℕ
buffer text = set (tab_size - 1) 0 (take tab_size text)

module _ {S : Type 0} (fs : Files S) where
  unfoldable pub cpumask_write : ℕ → List ℕ → Action S (Unit {0})
  cpumask_write class_id tab = write_text fs class_id File.cpus (print_bytes 0 tab)

  unfoldable pub cpumask_read : ℕ → Action S (List ℕ)
  cpumask_read class_id s =
      let (text, s') = read_text fs class_id File.cpus s in
      (elim text [ err e ↦ err e | ok t ↦ ok (scan (buffer t)).tab ], s')

pub ==→eq : (i k : ℕ) → (i == k) ≡ true → i ≡ k
==→eq i k e = ground arith

-- A store into the table, seen bit by bit.
pub get_or-store :
    (k i y : ℕ) (tab : List ℕ)
    → i < length tab
    → get_or 0 k (set i y tab) ≡ (if i == k then y else get_or 0 k tab)
get_or-store k i y tab h = elim (Bool-cases (i == k)) [
  | inl e ↦ rw (e, sym (==→eq i k e)) (get_or-set 0 i y tab h)
  | inr e ↦ rw e (get_or-set_other 0 i k y tab (ground arith))
]

same_bit : (i j : ℕ) → i < 4096 → j < 4096 → item_of i ≡ item_of j → (i % 8 == j % 8) ≡ (i == j)
same_bit i j hi hj e = ground arith

max-bit : (x : ℕ) (b : Bool) → max (x % 2) (if b then 1 else 0) ≡ (if b then 1 else x % 2)
max-bit x true = omega arith
max-bit x false = omega arith

-- Setting a core's bit sets that bit and no other: for core numbers below 4096 and a table of
-- 512 bytes, `get` of `j` after `set` of `i` is 1 when `j` is `i` and what it was otherwise.
pub cpumask_get-cpumask_set :
    (i j : ℕ) (tab : List ℕ)
    → length tab ≡ tab_size
    → i < 4096
    → j < 4096
    → cpumask_get j (cpumask_set i tab) ≡ (if i == j then 1 else cpumask_get j tab)
unfolding cpumask_get cpumask_set
cpumask_get-cpumask_set i j tab l hi hj =
    let old = get_or 0 (item_of i) tab in
    let x = old / 2 ^ (j % 8) in
    rw (get_or-store (item_of j) (item_of i) (bit_or old (2 ^ (i % 8)) % 2 ^ 8) tab (omega arith))
      elim (Bool-cases (item_of i == item_of j)) [
        | inl e ↦
            let e' = ==→eq (item_of i) (item_of j) e in
            rw
              (
                e,
                sym e',
                or_byte (j % 8) old (2 ^ (i % 8)) (omega arith),
                bit-pow (j % 8) (i % 8),
                same_bit i j hi hj e',
              )
              (max-bit x (i == j))
        | inr e ↦ rw e (ground arith)
      ]
