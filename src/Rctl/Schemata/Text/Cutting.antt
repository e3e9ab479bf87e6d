-- ===== src/Rctl/Schemata/Text/Cutting.antt =====
-- How `fgets`, `strchr` and `strtok_r` cut up what `schemata_write` prints.
use multi_resource_isolation.Prelude.{
  ℕ, zero, suc, ◌+◌, ◌-◌, ◌*◌, ◌/◌, ◌%◌, ◌≤◌, ◌<◌, ◌≡◌, refl, sym, ap, ◌∙◌, arith, true, false, ltb,
  leb, ◌==◌, if◌then◌else◌, List, [], ◌∷◌, ◌++◌, some, Bool-cases, inl, inr, All, length,
  length-append,
}
use multi_resource_isolation.Rctl.{hex_digit}
use multi_resource_isolation.Rctl.Number.{digits, print_number}
use multi_resource_isolation.Rctl.Number.RoundTrip.{IsBase}
use multi_resource_isolation.Rctl.Schemata.Text.{
  buf_size, lines, cut_at, pieces, drop_empty, print_entry, print_entries,
}

abbrev pub NotIn : ℕ → List ℕ → Type 0
NotIn x cs = All (λ (c : ℕ). (c == x) ≡ false) cs

pub NotIn-append : (x : ℕ) (l r : List ℕ) → NotIn x l → NotIn x r → NotIn x (l ++ r)
NotIn-append x [] r h k = k
NotIn-append x (c ∷ l) r h k = (h.0, NotIn-append x l r h.1 k)

pub self : (x : ℕ) → (x == x) ≡ true
self x = ground arith

pub cut_at-append : (x : ℕ) (l r : List ℕ) → NotIn x l → cut_at x (l ++ x ∷ r) ≡ some (l, r)
unfolding cut_at
cut_at-append x [] r h = rw (self x) refl
cut_at-append x (c ∷ l) r h = rw (h.0, cut_at-append x l r h.1) refl

pub pieces-append : (x : ℕ) (l r : List ℕ) → NotIn x l → pieces x (l ++ x ∷ r) ≡ l ∷ pieces x r
unfolding pieces
pieces-append x [] r h = rw (self x) refl
pieces-append x (c ∷ l) r h = rw (h.0, pieces-append x l r h.1) refl

pub pieces-last : (x : ℕ) (l : List ℕ) → NotIn x l → pieces x l ≡ l ∷ []
unfolding pieces
pieces-last x [] h = refl
pieces-last x (c ∷ l) h = rw (h.0, pieces-last x l h.1) refl

pub drop_empty-keeps :
    (x : ℕ) (a b : List ℕ) (ls : List (List ℕ))
    → drop_empty ((a ++ x ∷ b) ∷ ls) ≡ (a ++ x ∷ b) ∷ drop_empty ls
unfolding drop_empty
drop_empty-keeps x [] b ls = refl
drop_empty-keeps x (c ∷ a) b ls = refl

pub lines-append :
    (room : ℕ) (l r : List ℕ)
    → NotIn b'\n' l
    → length l < room
    → lines buf_size room (l ++ b'\n' ∷ r) ≡ (l ++ b'\n' ∷ []) ∷ lines buf_size buf_size r
unfolding lines
lines-append room [] r h k = refl
lines-append room (c ∷ l) r h k =
    let e : leb room 1 ≡ false = ground arith in
    rw (h.0, e, lines-append (room - 1) l r h.1 (omega arith)) refl

-- No digit is one of the characters that the code looks for.
abbrev pub NoDigit : ℕ → Type 0
NoDigit x = (d : ℕ) → d < 16 → (hex_digit d == x) ≡ false

module _ (x : ℕ) (q : NoDigit x) where
  pub digits-NotIn :
      (fuel base n : ℕ) (text : List ℕ)
      → IsBase base
      → NotIn x text
      → NotIn x (digits fuel base n text)
  unfolding digits
  digits-NotIn zero base n text b h = h
  digits-NotIn (suc fuel) base n text b h = elim (Bool-cases (ltb n base)) [
    | inl e ↦ rw e (q n (elim b [ inl k ↦ ground arith | inr k ↦ ground arith ]), h)
    | inr e ↦ rw e (
        digits-NotIn fuel base (n / base) (hex_digit (n % base) ∷ text) b
          (q (n % base) (elim b [ inl k ↦ rw k (omega arith) | inr k ↦ rw k (omega arith) ]), h))
  ]

  pub print_entry-NotIn :
      (base i v : ℕ) → IsBase base → (b'=' == x) ≡ false → NotIn x (print_entry base i v)
  unfolding print_entry
  print_entry-NotIn base i v b h =
      digits-NotIn 64 10 i (b'=' ∷ print_number base v []) (inl refl)
        (h, digits-NotIn 64 base v [] b tt)

  pub print_entries-NotIn :
      (base i : ℕ) (vs : List ℕ)
      → IsBase base
      → (b'=' == x) ≡ false
      → (b';' == x) ≡ false
      → NotIn x (print_entries base i vs)
  unfolding print_entries
  print_entries-NotIn base i [] b h k = tt
  print_entries-NotIn base i (v ∷ vs) b h k =
      NotIn-append x (if ltb 0 i then b';' ∷ [] else [])
        (print_entry base i v ++ print_entries base (i + 1) vs)
        (elim (Bool-cases (ltb 0 i)) [ inl e ↦ rw e (k, tt) | inr e ↦ rw e tt ])
        (NotIn-append x (print_entry base i v) (print_entries base (i + 1) vs)
          (print_entry-NotIn base i v b h) (print_entries-NotIn base (i + 1) vs b h k))

pub length-digits :
    (fuel base n : ℕ) (text : List ℕ) → length (digits fuel base n text) ≤ fuel + length text
unfolding digits
length-digits zero base n text = omega arith
length-digits (suc fuel) base n text = elim (Bool-cases (ltb n base)) [
  | inl e ↦ rw e (omega arith)
  | inr e ↦
      rw e (let r = length-digits fuel base (n / base) (hex_digit (n % base) ∷ text) in omega arith)
]

pub digits-append :
    (fuel base n : ℕ) (l r : List ℕ) → digits fuel base n (l ++ r) ≡ digits fuel base n l ++ r
unfolding digits
digits-append zero base n l r = refl
digits-append (suc fuel) base n l r = elim (Bool-cases (ltb n base)) [
  | inl e ↦ rw e refl
  | inr e ↦ rw e (digits-append fuel base (n / base) (hex_digit (n % base) ∷ l) r)
]

pub print_entry-split :
    (base i v : ℕ) (r : List ℕ)
    → print_entry base i v ++ r ≡ print_number 10 i [] ++ (b'=' ∷ print_number base v r)
unfolding print_entry
print_entry-split base i v r =
    sym (digits-append 64 10 i (b'=' ∷ print_number base v []) r)
    ∙ ap (λ (t : List ℕ). digits 64 10 i (b'=' ∷ t)) (sym (digits-append 64 base v [] r))
    ∙ digits-append 64 10 i [] (b'=' ∷ print_number base v r)

pub length-print_entries :
    (base i : ℕ) (vs : List ℕ) → length (print_entries base i vs) ≤ 130 * length vs
unfolding print_entries print_entry
length-print_entries base i [] = omega arith
length-print_entries base i (v ∷ vs) =
    let e = length-digits 64 10 i (b'=' ∷ print_number base v []) in
    let e' = length-digits 64 base v [] in
    let k = length-print_entries base (i + 1) vs in
    let j = length-append (print_entry base i v) (print_entries base (i + 1) vs) in
    elim (Bool-cases (ltb 0 i)) [ inl q ↦ rw q (omega arith) | inr q ↦ rw q (omega arith) ]
