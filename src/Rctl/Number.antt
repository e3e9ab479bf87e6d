-- ===== src/Rctl/Number.antt =====
-- The numbers in resctrl files: `strtouint64` of lib/resctrl_alloc.c and what `printf` writes for
-- `%u`, `%x` and `%llx`.
pub mod RoundTrip
use multi_resource_isolation.Prelude.{
  ℕ, zero, suc, ◌+◌, ◌-◌, ◌*◌, ◌/◌, ◌%◌, ◌^◌, ◌≤◌, ◌<◌, ◌≡◌, refl, sym, ap, ◌∙◌, arith, Bool, true,
  false, ◌&&◌, ◌||◌, not, ltb, leb, ◌==◌, if◌then◌else◌, List, [], ◌∷◌, ◌++◌, Option, none, some,
  Bool-cases, inl, inr, ◌⊎◌,
}
use multi_resource_isolation.Rctl.{hex_value, hex_digit, hex_value-hex_digit}

-- The digits of a number in front of a text. A number below `2 ^ fuel` needs no more rounds.
unfoldable pub digits : ℕ → ℕ → ℕ → List ℕ → List ℕ
digits zero base n text = text
digits (suc fuel) base n text =
    let more = digits fuel base (n / base) (hex_digit (n % base) ∷ text) in
    if ltb n base then hex_digit n ∷ text else more

-- `%u`, `%x` or `%llx`, by the base, in front of a text.
abbrev pub print_number : ℕ → ℕ → List ℕ → List ℕ
print_number base n text = digits 64 base n text

-- `isspace` in the C locale.
unfoldable pub isspace : ℕ → Bool
isspace c = (c == 32) || (leb 9 c && leb c 13)

unfoldable pub skip_spaces : List ℕ → List ℕ
skip_spaces [] = []
skip_spaces (c ∷ cs) = if isspace c then skip_spaces cs else c ∷ cs

-- The value of a character as a digit of a base, at most 16.
unfoldable pub digit : ℕ → ℕ → Option ℕ
digit base c = elim (hex_value c) [ none ↦ none | some v ↦ if ltb v base then some v else none ]

-- The longest run of digits, after `acc`, and what follows it.
unfoldable pub run_of_digits : ℕ → ℕ → List ℕ → ℕ × List ℕ
run_of_digits base acc [] = (acc, [])
run_of_digits base acc (c ∷ cs) = elim (digit base c) [
  | none ↦ (acc, c ∷ cs)
  | some v ↦ run_of_digits base (acc * base + v) cs
]

abbrev pub is_some : Option ℕ → Bool
is_some none = false
is_some (some v) = true

-- What follows `0x` or `0X`.
unfoldable pub after_0x : List ℕ → Option (List ℕ)
after_0x (c ∷ x ∷ cs) = if c == b'0' && ((x == b'x') || (x == b'X')) then some cs else none
after_0x _ = none

unfoldable pub starts_digit : ℕ → List ℕ → Bool
starts_digit base [] = false
starts_digit base (c ∷ cs) = is_some (digit base c)

-- In base 16 a prefix `0x` counts if a digit follows it.
unfoldable pub skip_0x : ℕ → List ℕ → List ℕ
skip_0x base text = elim (after_0x text) [
  | none ↦ text
  | some cs ↦ if base == 16 && starts_digit 16 cs then cs else text
]

-- A sign, `true` for a minus, and what follows it.
unfoldable pub sign : List ℕ → Bool × List ℕ
sign [] = (false, [])
sign (c ∷ cs) = if c == b'-' then (true, cs) else if c == b'+' then (false, cs) else (false, c ∷ cs)

-- ULLONG_MAX where the number does not fit; a minus negates in 64 bits.
unfoldable pub to_uint64 : Bool → ℕ → ℕ
to_uint64 minus v =
    if ltb v (2 ^ 64) then (if minus then (2 ^ 64 - v) % 2 ^ 64 else v) else 2 ^ 64 - 1

-- `strtoull` of the C library, for the bases 10 and 16: the value and the rest of the text, which
-- is all of it where there is no number.
unfoldable pub strtoull : ℕ → List ℕ → ℕ × List ℕ
strtoull base text =
    let (minus, unsigned) = sign (skip_spaces text) in
    let body = skip_0x base unsigned in
    if starts_digit base body
    then (let (v, rest) = run_of_digits base 0 body in (to_uint64 minus v, rest))
    else (0, text)

-- `*endptr == '\0' || *endptr == '\n'`
unfoldable pub ends : List ℕ → Bool
ends [] = true
ends (c ∷ cs) = c == b'\n'

unfoldable pub is_empty : List ℕ → Bool
is_empty [] = true
is_empty (c ∷ cs) = false

-- The base and the text that `strtoull` gets.
unfoldable pub strip_0x : ℕ → List ℕ → ℕ × List ℕ
strip_0x base text = elim (after_0x text) [ none ↦ (base, text) | some cs ↦ (16, cs) ]

unfoldable pub strtouint64 : ℕ → List ℕ → Option ℕ
strtouint64 base text =
    let (b, s) = strip_0x base text in
    let (value, rest) = strtoull b s in if not (is_empty s) && ends rest then some value else none
