-- ===== src/Rctl/Schemata/Text/Setting.antt =====
-- What reading a printed line sets in the tables.
use multi_resource_isolation.Prelude.{
  ℕ, ◌+◌, ◌^◌, ◌≤◌, ◌<◌, ◌≡◌, refl, sym, arith, List, [], ◌∷◌, ◌++◌, some, All, length,
  length-append, append_assoc,
}
use multi_resource_isolation.Types.{ok}
use multi_resource_isolation.Rctl.Number.{isspace, skip_spaces}
use multi_resource_isolation.Rctl.Schemata.{
  Schemata, SchemataType, schemata_set, l2_type, l3_type, l3code_type, l3data_type, mb_type,
}
use multi_resource_isolation.Rctl.Schemata.Text.{
  label_of, base_of, buf_size, lines, cut_at, read_line, same_text, type_get, print_line,
  print_entries, print_entry,
}
use multi_resource_isolation.Rctl.Schemata.Text.Lexing.{
  newline-NoDigit, set_all, Fits64, read_tokens-entries, base_of-IsBase,
}
use multi_resource_isolation.Rctl.Schemata.Text.Cutting.{
  NotIn, NotIn-append, lines-append, print_entries-NotIn, length-print_entries,
}

labelled :
    (type : SchemataType) (r : List ℕ)
    → (cut_at b':' (skip_spaces (label_of type ++ (b':' ∷ r))) ≡ some (label_of type, r))
      × (type_get (label_of type) ≡ some type)
unfolding cut_at skip_spaces isspace type_get same_text
labelled l2_type r = (refl, refl)
labelled l3_type r = (refl, refl)
labelled l3code_type r = (refl, refl)
labelled l3data_type r = (refl, refl)
labelled mb_type r = (refl, refl)

line_entries :
    (base v : ℕ) (vs : List ℕ)
    → print_entries base 0 (v ∷ vs) ++ (b'\n' ∷ [])
      ≡ print_entry base 0 v ++ (print_entries base (0 + 1) vs ++ (b'\n' ∷ []))
unfolding print_entries
line_entries base v vs =
    append_assoc (print_entry base 0 v) (print_entries base (0 + 1) vs) (b'\n' ∷ [])

pub read_line-print_line :
    (type : SchemataType) (v : ℕ) (vs : List ℕ) (s : Schemata)
    → length vs < 2 ^ 32
    → Fits64 (v ∷ vs)
    → read_line (print_line type (v ∷ vs)) s ≡ set_all type 0 (v ∷ vs) s
unfolding read_line print_line
read_line-print_line type v vs s h f =
    let r = print_entries (base_of type) 0 (v ∷ vs) ++ (b'\n' ∷ []) in
    rw (read_line, (labelled type r).0, (labelled type r).1, line_entries (base_of type) v vs)
      (read_tokens-entries type 0 v vs s (omega arith) f.0 f.1)

-- The line is one line of the file.
label-NotIn : (type : SchemataType) → NotIn b'\n' (label_of type)
label-NotIn l2_type = (refl, (refl, tt))
label-NotIn l3_type = (refl, (refl, tt))
label-NotIn l3code_type = (refl, (refl, (refl, (refl, (refl, (refl, tt))))))
label-NotIn l3data_type = (refl, (refl, (refl, (refl, (refl, (refl, tt))))))
label-NotIn mb_type = (refl, (refl, tt))

length-label : (type : SchemataType) → length (label_of type) ≤ 6
length-label l2_type = omega arith
length-label l3_type = omega arith
length-label l3code_type = omega arith
length-label l3data_type = omega arith
length-label mb_type = omega arith

pub lines-print_line :
    (type : SchemataType) (vs r : List ℕ)
    → length vs ≤ 100
    → lines buf_size buf_size (print_line type vs ++ r)
      ≡ print_line type vs ∷ lines buf_size buf_size r
unfolding print_line
lines-print_line type vs r h =
    let es = print_entries (base_of type) 0 vs in
    let body = label_of type ++ (b':' ∷ es) in
    let q : label_of type ++ (b':' ∷ (es ++ (b'\n' ∷ []))) ≡ body ++ (b'\n' ∷ []) =
      sym (append_assoc (label_of type) (b':' ∷ es) (b'\n' ∷ [])) in
    let n : NotIn b'\n' body = NotIn-append b'\n' (label_of type) (b':' ∷ es) (label-NotIn type) (
      refl,
      print_entries-NotIn b'\n' newline-NoDigit (base_of type) 0 vs (base_of-IsBase type) refl refl,
    ) in
    let k : length body < buf_size =
      let i = length-append (label_of type) (b':' ∷ es) in
      let j = length-label type in
      let m = length-print_entries (base_of type) 0 vs in omega arith in
    rw (q, append_assoc body (b'\n' ∷ []) r) (lines-append buf_size body r n k)

-- The values of a table put in place, by a way to put one entry.
module _ {A : Type 0} (write : A → ℕ → A) where
  abbrev pub fill : List A → List ℕ → List A
  fill [] vs = []
  fill (a ∷ xs) [] = a ∷ xs
  fill (a ∷ xs) (v ∷ vs) = write a v ∷ fill xs vs

  -- `embed` is the record with the table in it, and every entry at its place can be set.
  module _ (type : SchemataType) (embed : List A → Schemata) (Ok : A → Type 0) (Fits : ℕ → Type 0)
      (step : (pre post : List A) (a : A) (v : ℕ)
        → Ok a
        → Fits v
        → length pre < 2 ^ 32
        → schemata_set (length pre) v type (embed (pre ++ (a ∷ post)))
          ≡ ok (embed (pre ++ (write a v ∷ post)))) where
    pub set_all-fill :
        (pre xs : List A) (vs : List ℕ)
        → length vs ≡ length xs
        → All Ok xs
        → All Fits vs
        → length pre + length xs < 2 ^ 32
        → set_all type (length pre) vs (embed (pre ++ xs)) ≡ ok (embed (pre ++ fill xs vs))
    unfolding set_all
    set_all-fill pre [] [] l o f b = refl
    set_all-fill pre [] (v ∷ vs) l o f b = absurd (omega arith)
    set_all-fill pre (a ∷ xs) [] l o f b = absurd (omega arith)
    set_all-fill pre (a ∷ xs) (v ∷ vs) l o f b =
        let pre' = pre ++ (write a v ∷ []) in
        let n : length pre' ≡ length pre + 1 = length-append pre (write a v ∷ []) in
        let p = append_assoc pre (write a v ∷ []) xs in
        let p' = append_assoc pre (write a v ∷ []) (fill xs vs) in
        rw (set_all, step pre xs a v o.0 f.0 (omega arith), sym n, sym p, sym p')
          (set_all-fill pre' xs vs (omega arith) o.1 f.1 (omega arith))
