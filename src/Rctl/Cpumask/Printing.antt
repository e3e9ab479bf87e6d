-- ===== src/Rctl/Cpumask/Printing.antt =====
-- lib/resctrl_alloc.c, `resctrl_alloc_cpumask_write`: which cores the text written for a mask names.
use multi_resource_isolation.Prelude.{
  ℕ, zero, suc, ◌+◌, ◌-◌, ◌*◌, ◌/◌, ◌%◌, ◌^◌, ◌<◌, ◌≡◌, refl, ap, ◌∙◌, arith, Bool, true, false,
  ltb, ◌==◌, if◌then◌else◌, List, [], ◌∷◌, ◌++◌, length, get_or, All, length-append, bit,
  Bool-cases, inl, inr, append-nil,
}
use multi_resource_isolation.Rctl.{hex_value, hex_value-hex_digit}
use multi_resource_isolation.Rctl.Cpumask.{tab_size, item_of, cpumask_get, print_byte, print_bytes}
use multi_resource_isolation.Rctl.Cpumask.Reading.{digits_back, get_or-snoc}

-- A byte of the table.
abbrev pub IsByte : ℕ → Type 0
IsByte b = b < 2 ^ 8

digits_back-separator :
    (t : Bool) (cs : List ℕ) → digits_back ((if t then b',' ∷ [] else []) ++ cs) ≡ digits_back cs
unfolding hex_value
digits_back-separator true cs = append-nil (digits_back cs)
digits_back-separator false cs = refl

digits_back-byte :
    (i b : ℕ) (bs : List ℕ)
    → IsByte b
    → digits_back (print_bytes i (b ∷ bs))
      ≡ (digits_back (print_bytes (i + 1) bs) ++ b % 16 ∷ []) ++ b / 16 ∷ []
unfolding print_bytes print_byte
digits_back-byte i b bs h =
    rw
      (
        hex_value-hex_digit (b / 16) (omega arith),
        hex_value-hex_digit (b % 16) (omega arith),
        digits_back-separator ((i + 1) % 4 == 0) (print_bytes (i + 1) bs),
      )
      refl

length-digits_back-print :
    (i : ℕ) (bs : List ℕ) → All IsByte bs → length (digits_back (print_bytes i bs)) ≡ 2 * length bs
unfolding print_bytes
length-digits_back-print i [] h = refl
length-digits_back-print i (b ∷ bs) h =
    let rest = digits_back (print_bytes (i + 1) bs) in
    let n = length-digits_back-print (i + 1) bs h.1 in
    let e = length-append (rest ++ b % 16 ∷ []) (b / 16 ∷ []) in
    let e' = length-append rest (b % 16 ∷ []) in
    ap (λ (ds : List ℕ). length ds) (digits_back-byte i b bs h.0) ∙ omega arith

-- The digits of the text, from the last: the halves of the bytes, the lower one first.
half_of : ℕ → ℕ → ℕ
half_of k b = if k % 2 == 0 then b % 16 else b / 16

digits_back-print :
    (i k : ℕ) (bs : List ℕ)
    → All IsByte bs
    → k < 2 * length bs
    → get_or 0 k (digits_back (print_bytes i bs)) ≡ half_of k (get_or 0 (length bs - 1 - k / 2) bs)
unfolding half_of
digits_back-print i k [] h l = absurd (omega arith)
digits_back-print i k (b ∷ bs) h l =
    rw
      (
        digits_back-byte i b bs h.0,
        get_or-snoc k (b / 16) (digits_back (print_bytes (i + 1) bs) ++ b % 16 ∷ []),
        get_or-snoc k (b % 16) (digits_back (print_bytes (i + 1) bs)),
        length-append (digits_back (print_bytes (i + 1) bs)) (b % 16 ∷ []),
        length-digits_back-print (i + 1) bs h.1,
      )
      elim (Bool-cases (ltb k (2 * length bs))) [
        | inl e ↦
            let p : suc (length bs) - 1 - k / 2 ≡ suc (length bs - 1 - k / 2) = ground arith in
            let q : (k == 2 * length bs + 1) ≡ false = ground arith in
            let r : (k == 2 * length bs) ≡ false = ground arith in
            rw (p, q, r) (digits_back-print (i + 1) k bs h.1 (ground arith))
        | inr e ↦ let p : suc (length bs) - 1 - k / 2 ≡ 0 = ground arith in rw p (ground arith)
      ]

bit-half : (c x : ℕ) → c < 8 → bit (c % 4) (if c / 4 == 0 then x % 16 else x / 16) ≡ bit c x
bit-half zero x h = omega arith
bit-half (suc zero) x h = omega arith
bit-half (suc (suc zero)) x h = omega arith
bit-half (suc (suc (suc zero))) x h = omega arith
bit-half (suc (suc (suc (suc zero)))) x h = omega arith
bit-half (suc (suc (suc (suc (suc zero))))) x h = omega arith
bit-half (suc (suc (suc (suc (suc (suc zero)))))) x h = omega arith
bit-half (suc (suc (suc (suc (suc (suc (suc zero))))))) x h = omega arith
bit-half (suc (suc (suc (suc (suc (suc (suc (suc j)))))))) x h = absurd (omega arith)

-- The text written for a mask names the cores the mask has: for a table of 512 bytes, bit `j % 4`
-- of the digit that has `j / 4` digits after it is what `get` gives for core `j`, below 4096.
pub cpumask_get-print_bytes :
    (tab : List ℕ) (j : ℕ)
    → length tab ≡ tab_size
    → All IsByte tab
    → j < 4096
    → bit (j % 4) (get_or 0 (j / 4) (digits_back (print_bytes 0 tab))) ≡ cpumask_get j tab
unfolding cpumask_get half_of
cpumask_get-print_bytes tab j l h hj =
    let p : tab_size - 1 - j / 4 / 2 ≡ item_of j = omega arith in
    let q : j % 4 ≡ (j % 8) % 4 = omega arith in
    let r : (j / 4 % 2 == 0) ≡ ((j % 8) / 4 == 0) = ground arith in
    rw (digits_back-print 0 (j / 4) tab h (omega arith), l, p, q, r)
      (bit-half (j % 8) (get_or 0 (item_of j) tab) (omega arith))
