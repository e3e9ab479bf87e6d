-- ===== src/Rctl/Number/RoundTrip.antt =====
-- `strtouint64` of lib/resctrl_alloc.c reads back what `printf` wrote.
use multi_resource_isolation.Prelude.{
  ℕ, zero, suc, ◌+◌, ◌*◌, ◌/◌, ◌%◌, ◌^◌, ◌<◌, ◌≡◌, refl, sym, ap, ◌∙◌, arith, Bool, true, false,
  ◌&&◌, ◌||◌, ltb, ◌==◌, if◌then◌else◌, List, [], ◌∷◌, none, some, Bool-cases, inl, inr, ◌⊎◌,
  lt→ltb,
}
use native.Mathlib.Nat.{pow-suc}
use multi_resource_isolation.Rctl.{hex_value, hex_digit, hex_value-hex_digit}
use multi_resource_isolation.Rctl.Number.{
  digits, isspace, skip_spaces, digit, run_of_digits, after_0x, starts_digit, skip_0x, sign,
  to_uint64, strtoull, ends, is_empty, strip_0x, strtouint64, print_number,
}

abbrev pub IsBase : ℕ → Type 0
IsBase base = (base ≡ 10) ⊎ (base ≡ 16)

digit-hex_digit : (base v : ℕ) → IsBase base → v < base → digit base (hex_digit v) ≡ some v
unfolding digit
digit-hex_digit base v (inl b) h =
    rw (digit, hex_value-hex_digit v (omega arith), lt→ltb v base h) refl
digit-hex_digit base v (inr b) h =
    rw (digit, hex_value-hex_digit v (omega arith), lt→ltb v base h) refl

quotient-lt : (fuel base n : ℕ) → IsBase base → n < 2 ^ suc fuel → n / base < 2 ^ fuel
quotient-lt fuel base n (inl b) h = rw b (let e = pow-suc 2 fuel in omega arith)
quotient-lt fuel base n (inr b) h = rw b (let e = pow-suc 2 fuel in omega arith)

rejoin :
    (base n : ℕ)
    → IsBase base
    → (n / base * base + n % base ≡ n) × (n % base < base) × (0 * base + n ≡ n)
rejoin base n (inl b) = rw b (omega arith, omega arith, omega arith)
rejoin base n (inr b) = rw b (omega arith, omega arith, omega arith)

one_digit :
    (base acc v : ℕ) (text : List ℕ)
    → IsBase base
    → v < base
    → run_of_digits base acc (hex_digit v ∷ text) ≡ run_of_digits base (acc * base + v) text
unfolding run_of_digits
one_digit base acc v text b h = rw (run_of_digits, digit-hex_digit base v b h) refl

-- Reading goes through the digits of `n` as if `n` had been read.
run_of_digits-digits :
    (fuel base n : ℕ) (text : List ℕ)
    → IsBase base
    → n < 2 ^ suc fuel
    → run_of_digits base 0 (digits (suc fuel) base n text) ≡ run_of_digits base n text
unfolding digits
run_of_digits-digits zero base n text b h =
    let e : ltb n base ≡ true = elim b [ inl q ↦ ground arith | inr q ↦ ground arith ] in
    rw e (
      one_digit base 0 n text b (ground arith)
      ∙ ap (λ (m : ℕ). run_of_digits base m text) (rejoin base n b).2)
run_of_digits-digits (suc fuel) base n text b h = elim (Bool-cases (ltb n base)) [
  | inl e ↦ rw e (
      one_digit base 0 n text b (ground arith)
      ∙ ap (λ (m : ℕ). run_of_digits base m text) (rejoin base n b).2)
  | inr e ↦ rw e (
      run_of_digits-digits fuel base (n / base) (hex_digit (n % base) ∷ text) b
        (quotient-lt (suc fuel) base n b h)
      ∙ one_digit base (n / base) (n % base) text b (rejoin base n b).1
      ∙ ap (λ (m : ℕ). run_of_digits base m text) (rejoin base n b).0)
]

-- A text that `0x` does not end.
abbrev pub NoX : List ℕ → Type 0
NoX [] = Unit
NoX (c ∷ cs) = ((c == b'x') || (c == b'X')) ≡ false

hex_digit-NoX : (v : ℕ) → v < 16 → ((hex_digit v == b'x') || (hex_digit v == b'X')) ≡ false
unfolding hex_digit
hex_digit-NoX v h = ground arith

-- A printed number starts with a digit, and no `x` comes second.
abbrev Starts : ℕ → List ℕ → Type 0
Starts base cs = (d : ℕ) × (t : List ℕ) × (cs ≡ hex_digit d ∷ t) × (d < base) × NoX t

below_16 : (base d : ℕ) → IsBase base → d < base → d < 16
below_16 base d (inl b) h = omega arith
below_16 base d (inr b) h = omega arith

digits-Starts :
    (fuel base n : ℕ) (text : List ℕ)
    → IsBase base
    → NoX text
    → Starts base (digits (suc fuel) base n text)
unfolding digits
digits-Starts zero base n text b h = elim (Bool-cases (ltb n base)) [
  | inl e ↦ (n, text, rw e refl, ground arith, h)
  | inr e ↦ (n % base, text, rw e refl, (rejoin base n b).1, h)
]
digits-Starts (suc fuel) base n text b h = elim (Bool-cases (ltb n base)) [
  | inl e ↦ (n, text, rw e refl, ground arith, h)
  | inr e ↦ rw e (
      digits-Starts fuel base (n / base) (hex_digit (n % base) ∷ text) b
        (hex_digit-NoX (n % base) (below_16 base (n % base) b (rejoin base n b).1)))
]

-- What `strtouint64` makes of a text that starts so.
hex_digit-plain :
    (d : ℕ)
    → d < 16
    → (isspace (hex_digit d) ≡ false)
      × ((hex_digit d == b'-') ≡ false)
      × ((hex_digit d == b'+') ≡ false)
unfolding isspace hex_digit
hex_digit-plain d h = (ground arith, ground arith, ground arith)

&&_false : (b : Bool) → (b && false) ≡ false
&&_false true = refl
&&_false false = refl

after_0x-Starts : (d : ℕ) (t : List ℕ) → NoX t → after_0x (hex_digit d ∷ t) ≡ none
unfolding after_0x
after_0x-Starts d [] h = refl
after_0x-Starts d (c ∷ cs) h = rw (h, &&_false (hex_digit d == b'0')) refl

module _ (base d : ℕ) (t : List ℕ) (b : IsBase base) (h : d < base) (x : NoX t) where
  plain :
      (isspace (hex_digit d) ≡ false)
      × ((hex_digit d == b'-') ≡ false)
      × ((hex_digit d == b'+') ≡ false)
  plain = hex_digit-plain d (below_16 base d b h)

  strip_0x-Starts : strip_0x base (hex_digit d ∷ t) ≡ (base, hex_digit d ∷ t)
  unfolding strip_0x
  strip_0x-Starts = rw (strip_0x, after_0x-Starts d t x) refl

  skip_0x-Starts : skip_0x base (hex_digit d ∷ t) ≡ hex_digit d ∷ t
  unfolding skip_0x
  skip_0x-Starts = rw (skip_0x, after_0x-Starts d t x) refl

  skip_spaces-Starts : skip_spaces (hex_digit d ∷ t) ≡ hex_digit d ∷ t
  unfolding skip_spaces
  skip_spaces-Starts = rw (skip_spaces, plain.0) refl

  sign-Starts : sign (hex_digit d ∷ t) ≡ (false, hex_digit d ∷ t)
  unfolding sign
  sign-Starts = rw (sign, plain.1, plain.2) refl

  starts_digit-Starts : starts_digit base (hex_digit d ∷ t) ≡ true
  unfolding starts_digit
  starts_digit-Starts = rw (starts_digit, digit-hex_digit base d b h) refl

  strtoull-Starts :
      strtoull base (hex_digit d ∷ t)
      ≡ (let (v, rest) = run_of_digits base 0 (hex_digit d ∷ t) in (to_uint64 false v, rest))
  unfolding strtoull
  strtoull-Starts =
      rw (strtoull, skip_spaces-Starts, sign-Starts, skip_0x-Starts, starts_digit-Starts) refl

  strtouint64-Starts : strtouint64 base (hex_digit d ∷ t) ≡ (
      let (v, rest) = run_of_digits base 0 (hex_digit d ∷ t) in
      if ends rest then some (to_uint64 false v) else none)
  unfolding strtouint64 is_empty
  strtouint64-Starts = rw (strtouint64, strip_0x-Starts, strtoull-Starts, is_empty) refl

ends-NoX : (text : List ℕ) → ends text ≡ true → NoX text
unfolding ends
ends-NoX [] h = tt
ends-NoX (c ∷ cs) h = ground arith

to_uint64-fits : (n : ℕ) → n < 2 ^ 64 → to_uint64 false n ≡ n
unfolding to_uint64
to_uint64-fits n h = ground arith

newline-digit : (base : ℕ) → digit base b'\n' ≡ none
unfolding digit hex_value
newline-digit base = refl

run_of_digits-ends :
    (base n : ℕ) (text : List ℕ) → ends text ≡ true → run_of_digits base n text ≡ (n, text)
unfolding ends run_of_digits
run_of_digits-ends base n [] h = refl
run_of_digits-ends base n (c ∷ cs) h =
    let e : b'\n' ≡ c = ground arith in
    rw (sym e, run_of_digits, newline-digit base) (ap (λ (x : ℕ). (n, x ∷ cs)) (sym e))

-- A 64-bit number that `printf` wrote in base 10 or 16, where the text ends or the line does, is
-- the number that `strtouint64` reads.
pub strtouint64-print_number :
    (base n : ℕ) (text : List ℕ)
    → IsBase base
    → n < 2 ^ 64
    → ends text ≡ true
    → strtouint64 base (print_number base n text) ≡ some n
strtouint64-print_number base n text b h e =
    let (d, t, q, l, x) = digits-Starts 63 base n text b (ends-NoX text e) in
    let r : run_of_digits base 0 (hex_digit d ∷ t) ≡ (n, text) =
      ap (λ (cs : List ℕ). run_of_digits base 0 cs) (sym q)
      ∙ run_of_digits-digits 63 base n text b h
      ∙ run_of_digits-ends base n text e in
    let u : to_uint64 false n ≡ n = to_uint64-fits n h in
    ap (λ (cs : List ℕ). strtouint64 base cs) q
    ∙ strtouint64-Starts base d t b l x
    ∙ rw (r, e, u) refl
