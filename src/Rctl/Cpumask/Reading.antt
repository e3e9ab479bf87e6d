-- ===== src/Rctl/Cpumask/Reading.antt =====
-- lib/resctrl_alloc.c, `resctrl_alloc_cpumask_read`: which cores a mask read from a file has.
use multi_resource_isolation.Prelude.{
  ℕ, zero, suc, ◌-◌, ◌*◌, ◌/◌, ◌%◌, ◌^◌, ◌≤◌, ◌<◌, ◌≡◌, refl, sym, ◌∙◌, arith, max, bit_or, true,
  false, ltb, ◌==◌, if◌then◌else◌, List, [], ◌∷◌, ◌++◌, Option, none, some, length, get_or, set,
  take, length-set, length-replicate, get_or-replicate, get_or-beyond, length-append, bit, or_byte,
  bit-digit, bit-shifted, bit-zero, Bool-cases, Option-cases, inl, inr, append-nil,
}
use multi_resource_isolation.Rctl.{hex_value, File, Files}
use multi_resource_isolation.Types.{ok}
use multi_resource_isolation.Rctl.Cpumask.{
  tab_size, item_of, Scan, scan_digit, scan, get_or-store, ==→eq, buffer, cpumask_get, cpumask_read,
}

-- The values of the hexadecimal digits of a text, from the last to the first; other characters
-- have none.
abbrev pub digit_of : Option ℕ → List ℕ
digit_of none = []
digit_of (some v) = v ∷ []

abbrev pub digits_back : List ℕ → List ℕ
digits_back [] = []
digits_back (c ∷ cs) = digits_back cs ++ digit_of (hex_value c)

hex_value-small : (c v : ℕ) → hex_value c ≡ some v → v < 16
unfolding hex_value
hex_value-small c v h = ground arith

-- What the loop has stored after the digits `ds`.
record Loaded (st : Scan) (ds : List ℕ) : Type 0 where
  size : length st.tab ≡ tab_size
  half : st.hex_offset ≡ (length ds % 2 == 1)
  place : st.idx ≡ tab_size - 1 - length ds / 2
  bits :
      (j : ℕ)
      → j < 4096
      → bit (j % 8) (get_or 0 (item_of j) st.tab) ≡ bit (j % 4) (get_or 0 (j / 4) ds)

pub get_or-snoc :
    (i v : ℕ) (ds : List ℕ)
    → get_or 0 i (ds ++ v ∷ []) ≡ (if i == length ds then v else get_or 0 i ds)
get_or-snoc zero v [] = refl
get_or-snoc (suc i) v [] = ground arith
get_or-snoc zero v (d ∷ ds) = ground arith
get_or-snoc (suc i) v (d ∷ ds) = get_or-snoc i v ds ∙ ground arith

-- Beyond the digits every bit is 0.
bit-beyond : (b i : ℕ) (ds : List ℕ) → length ds ≤ i → bit b (get_or 0 i ds) ≡ 0
bit-beyond b i ds h = rw (get_or-beyond 0 i ds h) (bit-zero b)

max-zero : (a : ℕ) → max a 0 ≡ a
max-zero a = omega arith

zero-max : (a : ℕ) → max 0 a ≡ a
zero-max a = omega arith

-- The place of the next digit, and whether it is the lower half of a byte, against a core's.
idx-low :
    (idx n j : ℕ)
    → idx ≡ tab_size - 1 - n / 2
    → n < 1024
    → j < 4096
    → (idx == item_of j) ≡ (n / 2 == j / 8)
idx-low idx n j p h hj = ground arith

module _ (st : Scan) (ds : List ℕ) (v j : ℕ) (w : v < 16) (n : length ds < 1024) (hj : j < 4096)
    (L : Loaded st ds) where
  fits : st.idx < length st.tab
  fits = let p = L.place in let l = L.size in omega arith

  after : List ℕ
  after = ds ++ v ∷ []

  -- One digit: the lower half of a new byte.
  low-bits :
      length ds % 2 ≡ 0
      → bit (j % 8) (get_or 0 (item_of j) (set st.idx v st.tab))
        ≡ bit (j % 4) (get_or 0 (j / 4) (ds ++ v ∷ []))
  low-bits e =
      rw
        (
          get_or-store (item_of j) st.idx v st.tab fits,
          get_or-snoc (j / 4) v ds,
          idx-low st.idx (length ds) j L.place n hj,
        )
        elim (Bool-cases (j / 4 == length ds)) [
          | inl q ↦
              let r : (length ds / 2 == j / 8) ≡ true = ground arith in
              let m : j % 8 ≡ j % 4 = ground arith in rw (q, r, m) refl
          | inr q ↦ elim (Bool-cases (length ds / 2 == j / 8)) [
            | inl r ↦
                rw (q, r)
                  (bit-digit (j % 8) v w (ground arith)
                    ∙ sym (bit-beyond (j % 4) (j / 4) ds (ground arith)))
            | inr r ↦ rw (q, r) (L.bits j hj)
          ]
        ]

  -- The higher half of the last byte.
  joined :
      (length ds / 2 == j / 8) ≡ true
      → bit (j % 8) (bit_or (get_or 0 st.idx st.tab) (v * 16) % 2 ^ 8)
        ≡ max (bit (j % 8) (get_or 0 (item_of j) st.tab)) (bit (j % 8) (v * 16))
  joined r =
      let e : st.idx ≡ item_of j =
        ==→eq st.idx (item_of j) (idx-low st.idx (length ds) j L.place n hj ∙ r) in
      rw (sym e) (or_byte (j % 8) (get_or 0 st.idx st.tab) (v * 16) (omega arith))

  high-bits :
      length ds % 2 ≡ 1
      → bit (j % 8) (
          get_or 0
            (item_of j)
            (set st.idx (bit_or (get_or 0 st.idx st.tab) (v * 16) % 2 ^ 8) st.tab))
        ≡ bit (j % 4) (get_or 0 (j / 4) (ds ++ v ∷ []))
  high-bits e =
      rw
        (
          get_or-store (item_of j) st.idx (bit_or (get_or 0 st.idx st.tab) (v * 16) % 2 ^ 8) st.tab
              fits,
          get_or-snoc (j / 4) v ds,
          idx-low st.idx (length ds) j L.place n hj,
        )
        elim (Bool-cases (j / 4 == length ds)) [
          | inl q ↦
              let r : (length ds / 2 == j / 8) ≡ true = ground arith in
              let m : ltb (j % 8) 4 ≡ false = ground arith in
              let k : j % 8 - 4 ≡ j % 4 = ground arith in
              let z : bit (j % 8) (get_or 0 (item_of j) st.tab) ≡ 0 =
                L.bits j hj ∙ bit-beyond (j % 4) (j / 4) ds (ground arith) in
              rw (q, r, joined r, bit-shifted (j % 8) v, m, k, z) (zero-max (bit (j % 4) v))
          | inr q ↦ elim (Bool-cases (length ds / 2 == j / 8)) [
            | inl r ↦
                let m : ltb (j % 8) 4 ≡ true = ground arith in
                rw (q, r, joined r, bit-shifted (j % 8) v, m)
                  (max-zero (bit (j % 8) (get_or 0 (item_of j) st.tab)) ∙ L.bits j hj)
            | inr r ↦ rw (q, r) (L.bits j hj)
          ]
        ]

scan_digit-Loaded :
    (st : Scan) (ds : List ℕ) (v : ℕ)
    → v < 16
    → length ds < 1024
    → Loaded st ds
    → Loaded (scan_digit (some v) st) (ds ++ v ∷ [])
unfolding scan_digit
scan_digit-Loaded st ds v w n L = elim (Bool-cases (length ds % 2 == 1)) [
  | inl e ↦
      rw (L.half, e)
        record {
          size =
              length-set st.idx (bit_or (get_or 0 st.idx st.tab) (v * 16) % 2 ^ 8) st.tab ∙ L.size;
          half = rw (length-append ds (v ∷ [])) (ground arith);
          place = let p = L.place in rw (length-append ds (v ∷ [])) (ground arith);
          bits = λ j hj. high-bits st ds v j w n hj L (ground arith);
        }
  | inr e ↦
      rw (L.half, e)
        record {
          size = length-set st.idx v st.tab ∙ L.size;
          half = rw (length-append ds (v ∷ [])) (ground arith);
          place = let p = L.place in rw (length-append ds (v ∷ [])) (ground arith);
          bits = λ j hj. low-bits st ds v j w n hj L (ground arith);
        }
]

-- A character adds one digit at most.
length-digits_back : (cs : List ℕ) → length (digits_back cs) ≤ length cs
length-digits_back [] = omega arith
length-digits_back (c ∷ cs) =
    let l = length-digits_back cs in
    rw (length-append (digits_back cs) (digit_of (hex_value c))) elim (Option-cases (hex_value c)) [
      | inl e ↦ rw e (omega arith)
      | inr (v, e) ↦ rw e (omega arith)
    ]

scan-Loaded : (cs : List ℕ) → length cs ≤ 1024 → Loaded (scan cs) (digits_back cs)
unfolding scan scan_digit
scan-Loaded [] h = record {
  size = length-replicate {A = ℕ} tab_size 0;
  half = refl;
  place = refl;
  bits = λ j hj.
      rw (get_or-replicate {A = ℕ} 0 tab_size (item_of j))
        (bit-zero (j % 8) ∙ sym (bit-zero (j % 4)));
}
scan-Loaded (c ∷ cs) h = elim (Option-cases (hex_value c)) [
  | inl e ↦ rw (e, append-nil (digits_back cs)) (scan-Loaded cs (omega arith))
  | inr (v, e) ↦ rw e (
      scan_digit-Loaded (scan cs) (digits_back cs) v (hex_value-small c v e)
        (let l = length-digits_back cs in omega arith) (scan-Loaded cs (omega arith)))
]

length-take : (n : ℕ) (xs : List ℕ) → length (take n xs) ≤ n
length-take zero xs = omega arith
length-take (suc n) [] = omega arith
length-take (suc n) (x ∷ xs) = omega (arith, length-take n xs)

module _ {S : Type 0} (fs : Files S) where
  -- Where the file of cores was read and holds `text`, the call succeeds with a table of 512 bytes,
  -- in which core `j`, below 4096, has bit `j % 4` of the hexadecimal digit of the buffer that
  -- `j / 4` digits come after, or 0 where there are fewer. Characters that are no hexadecimal digits
  -- count for nothing.
  pub cpumask_read_lem :
      (class_id : ℕ) (text : List ℕ) (s s' : S)
      → fs.read_file class_id File.cpus s ≡ (some text, s')
      → (tab : List ℕ) × (cpumask_read fs class_id s ≡ (ok tab, s'))
        × (length tab ≡ tab_size)
        × ((j : ℕ)
            → j < 4096
            → cpumask_get j tab ≡ bit (j % 4) (get_or 0 (j / 4) (digits_back (buffer text))))
  unfolding cpumask_read cpumask_get buffer
  cpumask_read_lem class_id text s s' h =
      let L = scan-Loaded (buffer text) (
        let l = length-take tab_size text in
        rw (length-set (tab_size - 1) 0 (take tab_size text)) (omega arith)) in
      ((scan (buffer text)).tab, rw h refl, L.size, L.bits)
