-- ===== src/Rctl/Schemata/Text/Lexing.antt =====
-- The tokens of a printed line, and what reading them sets.
use multi_resource_isolation.Prelude.{
  ℕ, ◌+◌, ◌^◌, ◌<◌, ◌≡◌, refl, arith, true, ltb, List, [], ◌∷◌, ◌++◌, inl, inr, All, length,
  append_assoc,
}
use multi_resource_isolation.Types.{Result, ok, err, Result-cases}
use multi_resource_isolation.Rctl.{hex_digit}
use multi_resource_isolation.Rctl.Number.{print_number, ends}
use multi_resource_isolation.Rctl.Number.RoundTrip.{IsBase, strtouint64-print_number}
use multi_resource_isolation.Rctl.Schemata.{Schemata, SchemataType, schemata_set}
use multi_resource_isolation.Rctl.Schemata.Text.{
  base_of, pieces, drop_empty, tokens, read_token, read_tokens, print_entry, print_entries,
}
use multi_resource_isolation.Rctl.Schemata.Text.Cutting.{
  NotIn, NotIn-append, cut_at-append, pieces-append, pieces-last, drop_empty-keeps, NoDigit,
  digits-NotIn, print_entry-NotIn, digits-append, print_entry-split,
}

equals-NoDigit : NoDigit b'='
unfolding hex_digit
equals-NoDigit d h = ground arith

semicolon-NoDigit : NoDigit b';'
unfolding hex_digit
semicolon-NoDigit d h = ground arith

pub newline-NoDigit : NoDigit b'\n'
unfolding hex_digit
newline-NoDigit d h = ground arith

pub base_of-IsBase : (type : SchemataType) → IsBase (base_of type)
base_of-IsBase SchemataType.l2_type = inr refl
base_of-IsBase SchemataType.l3_type = inr refl
base_of-IsBase SchemataType.l3code_type = inr refl
base_of-IsBase SchemataType.l3data_type = inr refl
base_of-IsBase SchemataType.mb_type = inl refl

-- An entry sets its value.
read_token-parts :
    (type : SchemataType) (i v : ℕ) (r : List ℕ) (s : Schemata)
    → i < 2 ^ 64
    → v < 2 ^ 64
    → ends r ≡ true
    → read_token type (print_number 10 i [] ++ (b'=' ∷ print_number (base_of type) v r)) s
      ≡ schemata_set i v type s
unfolding read_token ends
read_token-parts type i v r s hi hv e =
    rw
      (
        read_token,
        cut_at-append b'=' (print_number 10 i []) (print_number (base_of type) v r)
            (digits-NotIn b'=' equals-NoDigit 64 10 i [] (inl refl) tt),
        strtouint64-print_number 10 i [] (inl refl) hi refl,
        strtouint64-print_number (base_of type) v r (base_of-IsBase type) hv e,
      )
      refl

-- The values of a line set one after the other.
unfoldable pub set_all : SchemataType → ℕ → List ℕ → Schemata → Result Schemata
set_all type i [] s = ok s
set_all type i (v ∷ vs) s = elim (schemata_set i v type s) [
  | err e ↦ err e
  | ok s' ↦ set_all type (i + 1) vs s'
]

abbrev pub Fits64 : List ℕ → Type 0
Fits64 vs = All (λ (v : ℕ). v < 2 ^ 64) vs

-- The first token of a line's entries.
semicolon_free : (base i v : ℕ) → IsBase base → NotIn b';' (print_entry base i v)
semicolon_free base i v b = print_entry-NotIn b';' semicolon-NoDigit base i v b refl

parts :
    (base i v : ℕ) → print_entry base i v ≡ print_number 10 i [] ++ (b'=' ∷ print_number base v [])
unfolding print_entry
parts base i v = digits-append 64 10 i [] (b'=' ∷ print_number base v [])

kept :
    (base i v : ℕ) (ls : List (List ℕ))
    → drop_empty (print_entry base i v ∷ ls) ≡ print_entry base i v ∷ drop_empty ls
kept base i v ls =
    rw (parts base i v) (drop_empty-keeps b'=' (print_number 10 i []) (print_number base v []) ls)

tokens-last :
    (base i v : ℕ)
    → IsBase base
    → tokens (print_entry base i v ++ (b'\n' ∷ [])) ≡ (print_entry base i v ++ (b'\n' ∷ [])) ∷ []
unfolding tokens drop_empty
tokens-last base i v b =
    rw
      (
        pieces-last b';' (print_entry base i v ++ (b'\n' ∷ [])) (
            NotIn-append b';' (print_entry base i v) (b'\n' ∷ []) (semicolon_free base i v b)
              (refl, tt)),
        print_entry-split base i v (b'\n' ∷ []),
        drop_empty-keeps b'=' (print_number 10 i []) (print_number base v (b'\n' ∷ [])) [],
        drop_empty,
      )
      refl

tokens-next :
    (base i v : ℕ) (r : List ℕ)
    → IsBase base
    → tokens (print_entry base i v ++ (b';' ∷ r)) ≡ print_entry base i v ∷ tokens r
unfolding tokens
tokens-next base i v r b =
    rw
      (
        pieces-append b';' (print_entry base i v) r (semicolon_free base i v b),
        kept base i v (pieces b';' r),
      )
      refl

ended : (base i : ℕ) → print_entries base i [] ++ (b'\n' ∷ []) ≡ b'\n' ∷ []
unfolding print_entries
ended base i = refl

separated :
    (base i w : ℕ) (vs : List ℕ)
    → print_entries base (i + 1) (w ∷ vs) ++ (b'\n' ∷ [])
      ≡ b';' ∷ (print_entry base (i + 1) w ++ (print_entries base (i + 1 + 1) vs ++ (b'\n' ∷ [])))
unfolding print_entries
separated base i w vs =
    let e : ltb 0 (i + 1) ≡ true = ground arith in
    rw
      (
        e,
        append_assoc (print_entry base (i + 1) w) (print_entries base (i + 1 + 1) vs) (b'\n' ∷ []),
      )
      refl

pub read_tokens-entries :
    (type : SchemataType) (i v : ℕ) (vs : List ℕ) (s : Schemata)
    → i + length vs < 2 ^ 64
    → v < 2 ^ 64
    → Fits64 vs
    → read_tokens type
        (tokens (
          print_entry (base_of type) i v
          ++ (print_entries (base_of type) (i + 1) vs ++ (b'\n' ∷ []))))
        s
      ≡ set_all type i (v ∷ vs) s
unfolding read_tokens set_all ends
read_tokens-entries type i v [] s hi hv h =
    rw
      (
        ended (base_of type) (i + 1),
        tokens-last (base_of type) i v (base_of-IsBase type),
        print_entry-split (base_of type) i v (b'\n' ∷ []),
        read_tokens,
        read_token-parts type i v (b'\n' ∷ []) s (omega arith) hv refl,
      )
      refl
read_tokens-entries type i v (w ∷ vs) s hi hv h =
    let b = base_of-IsBase type in
    let next =
      print_entry (base_of type) (i + 1) w
      ++ (print_entries (base_of type) (i + 1 + 1) vs ++ (b'\n' ∷ [])) in
    let one : read_token type (print_entry (base_of type) i v) s ≡ schemata_set i v type s =
      rw (parts (base_of type) i v) (read_token-parts type i v [] s (omega arith) hv refl) in
    rw (separated (base_of type) i w vs, tokens-next (base_of type) i v next b, read_tokens, one)
      elim (Result-cases (schemata_set i v type s)) [
        | inl (s', q) ↦
            rw (set_all, q) (read_tokens-entries type (i + 1) w vs s' (omega arith) h.0 h.1)
        | inr (e, q) ↦ rw (set_all, q) refl
      ]
