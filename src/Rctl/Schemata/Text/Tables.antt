-- ===== src/Rctl/Schemata/Text/Tables.antt =====
-- Whole lines of `schemata_write` read into the tables of `schemata_read`.
use multi_resource_isolation.Prelude.{
  ℕ, ◌≤◌, ◌<◌, ◌^◌, ◌≡◌, refl, sym, ap, ◌∙◌, arith, Bool, true, false, if◌then◌else◌, List, [], ◌∷◌,
  ◌++◌, All, length, append_assoc, map,
}
use multi_resource_isolation.Types.{ok}
use multi_resource_isolation.Alloc.L3.{L3ca, ways_mask}
use multi_resource_isolation.Alloc.L2.{L2ca}
use multi_resource_isolation.Alloc.Mba.{Mba}
use multi_resource_isolation.Rctl.Schemata.{
  Schemata, SchemataType, schemata_set, l2_type, l3_type, l3code_type, l3data_type, mb_type,
}
use multi_resource_isolation.Rctl.Schemata.Text.{buf_size, lines, read_lines, print_table, print_l3}
use multi_resource_isolation.Rctl.Schemata.Text.Lexing.{Fits64}
use multi_resource_isolation.Rctl.Schemata.Text.Setting.{fill, set_all-fill}
use multi_resource_isolation.Rctl.Schemata.Text.Pairs.{
  Pointwise, length-Pointwise, All-Pointwise, Pointwise-fill, All-map, length-map, equal,
}
use multi_resource_isolation.Rctl.Schemata.Text.Steps.{
  read_lines-print_table, l2_step, mb_step, l3_step, data_step, code_step,
}

-- Entries of one class, of one CDP setting.
abbrev pub SameL2 : L2ca → L2ca → Type 0
SameL2 a b = a.class_id ≡ b.class_id

abbrev pub SameMba : Mba → Mba → Type 0
SameMba a b = a.class_id ≡ b.class_id

-- Without CDP the file holds no code mask.
abbrev pub SameL3 : Bool → L3ca → L3ca → Type 0
SameL3 cdp a b =
    (a.class_id ≡ b.class_id)
    × (a.cdp ≡ cdp)
    × (b.cdp ≡ cdp)
    × ((cdp ≡ false) → a.code_mask ≡ b.code_mask)

-- Tables that fit the file: at most 100 entries each, and the masks and rates within their types.
pub record Printable (s : Schemata) : Type 0 where
  pub few : (length s.l2ca ≤ 100) × (length s.l3ca ≤ 100) × (length s.mba ≤ 100)
  pub l2_masks : All (λ (c : L2ca). c.ways_mask < 2 ^ 32) s.l2ca
  pub data_masks : All (λ (c : L3ca). c.data_mask < 2 ^ 64) s.l3ca
  pub code_masks : All (λ (c : L3ca). c.code_mask < 2 ^ 64) s.l3ca
  pub rates : All (λ (m : Mba). m.mb_rate < 2 ^ 32) s.mba

pub fits_64 :
    (bound : ℕ) → bound ≤ 2 ^ 64 → (vs : List ℕ) → All (λ (v : ℕ). v < bound) vs → Fits64 vs
fits_64 bound b [] h = tt
fits_64 bound b (v ∷ vs) h = (omega (arith, h.0), fits_64 bound b vs h.1)

-- One table of the file, read into a table of the same length.
module _ {A : Type 0} (type : SchemataType) (write : A → ℕ → A) (value : A → ℕ)
    (embed : List A → Schemata) (Ok : A → Type 0) (bound : ℕ) (b : bound ≤ 2 ^ 64)
    (step : (pre post : List A) (a : A) (v : ℕ)
      → Ok a
      → v < bound
      → length pre < 2 ^ 32
      → schemata_set (length pre) v type (embed (pre ++ (a ∷ post)))
        ≡ ok (embed (pre ++ (write a v ∷ post)))) where
  pub read_table :
      (xs ts : List A) (r : List ℕ)
      → length ts ≤ 100
      → length ts ≡ length xs
      → All Ok xs
      → All (λ (t : A). value t < bound) ts
      → read_lines (lines buf_size buf_size (print_table type (map value ts) ++ r)) (embed xs)
        ≡ read_lines (lines buf_size buf_size r) (embed (fill write xs (map value ts)))
  read_table xs ts r few l o f =
      let n = length-map value ts in
      let fs = All-map (λ (v : ℕ). v < bound) (λ (t : A). value t < bound) value (λ t q. q) ts f in
      let g =
        set_all-fill write type embed Ok (λ (v : ℕ). v < bound) step [] xs (map value ts)
          (omega arith) o fs (omega arith) in
      rw
        (
          read_lines-print_table type (map value ts) r (embed xs) (omega arith)
              (fits_64 bound b (map value ts) fs),
          g,
        )
        refl

pub read_l2 :
    (s t : Schemata) (r : List ℕ)
    → Printable t
    → Pointwise SameL2 s.l2ca t.l2ca
    → read_lines
        (lines buf_size buf_size
          (print_table l2_type (map (λ (c : L2ca). c.ways_mask) t.l2ca) ++ r))
        s
      ≡ read_lines (lines buf_size buf_size r) (record s { l2ca = t.l2ca })
read_l2 s t r p h =
    let write : L2ca → ℕ → L2ca = λ a v. record a { ways_mask = v } in
    let ways : L2ca → ℕ = λ c. c.ways_mask in
    let embed : List L2ca → Schemata = λ xs. record s { l2ca = xs } in
    read_table l2_type write ways embed (λ a. Unit {0}) (2 ^ 32) (omega arith) (l2_step s) s.l2ca
      t.l2ca r (p.few).0 (length-Pointwise SameL2 s.l2ca t.l2ca h)
      (All-Pointwise SameL2 (λ a. Unit {0}) (λ a b q. tt) s.l2ca t.l2ca h) p.l2_masks
    ∙ ap (λ (xs : List L2ca). read_lines (lines buf_size buf_size r) (embed xs))
        (equal (fill write s.l2ca (map ways t.l2ca)) t.l2ca (
          Pointwise-fill SameL2 (λ (a b : L2ca). a ≡ b) write ways
            (λ a b q. ap (λ (i : ℕ). record b { class_id = i }) q) s.l2ca t.l2ca h))

pub read_mba :
    (s t : Schemata) (r : List ℕ)
    → Printable t
    → Pointwise SameMba s.mba t.mba
    → read_lines
        (lines buf_size buf_size (print_table mb_type (map (λ (m : Mba). m.mb_rate) t.mba) ++ r))
        s
      ≡ read_lines (lines buf_size buf_size r) (record s { mba = t.mba })
read_mba s t r p h =
    let write : Mba → ℕ → Mba = λ a v. record a { mb_rate = v } in
    let rate : Mba → ℕ = λ m. m.mb_rate in
    let embed : List Mba → Schemata = λ xs. record s { mba = xs } in
    read_table mb_type write rate embed (λ a. Unit {0}) (2 ^ 32) (omega arith) (mb_step s) s.mba
      t.mba r (p.few).2 (length-Pointwise SameMba s.mba t.mba h)
      (All-Pointwise SameMba (λ a. Unit {0}) (λ a b q. tt) s.mba t.mba h) p.rates
    ∙ ap (λ (xs : List Mba). read_lines (lines buf_size buf_size r) (embed xs))
        (equal (fill write s.mba (map rate t.mba)) t.mba (
          Pointwise-fill SameMba (λ (a b : Mba). a ≡ b) write rate
            (λ a b q. ap (λ (i : ℕ). record b { class_id = i }) q) s.mba t.mba h))

-- The L3 lines are tables too.
pub l3_table :
    (cdp : Bool) (cas : List L3ca)
    → All (λ (c : L3ca). c.cdp ≡ cdp) cas
    → print_l3 cas ≡ (
        if cdp
        then print_table l3code_type (map (λ (c : L3ca). c.code_mask) cas)
          ++ print_table l3data_type (map (λ (c : L3ca). c.data_mask) cas)
        else print_table l3_type (map ways_mask cas))
unfolding print_l3 print_table
l3_table true [] h = refl
l3_table false [] h = refl
l3_table true (c ∷ cas) h = rw h.0 refl
l3_table false (c ∷ cas) h = rw h.0 refl

pub l3_equal :
    (a b : L3ca)
    → a.class_id ≡ b.class_id
    → a.cdp ≡ b.cdp
    → a.code_mask ≡ b.code_mask
    → (let c : L3ca = record a { data_mask = b.data_mask } in c) ≡ b
l3_equal a b p q r =
    ap (λ (i : ℕ). let c : L3ca = record a { class_id = i; data_mask = b.data_mask } in c) p
    ∙ ap (λ (i : Bool). let c : L3ca = record b { cdp = i; code_mask = a.code_mask } in c) q
    ∙ ap (λ (i : ℕ). let c : L3ca = record b { code_mask = i } in c) r

abbrev pub write_data : L3ca → ℕ → L3ca
write_data a v = record a { data_mask = v }

abbrev pub write_code : L3ca → ℕ → L3ca
write_code a v = record a { code_mask = v }

abbrev pub data_of : L3ca → ℕ
data_of c = c.data_mask

abbrev pub code_of : L3ca → ℕ
code_of c = c.code_mask

pub uniform :
    (cdp : Bool) (xs ts : List L3ca)
    → Pointwise (SameL3 cdp) xs ts
    → All (λ (c : L3ca). c.cdp ≡ cdp) ts
uniform cdp xs [] h = tt
uniform cdp [] (t ∷ ts) h = absurd h
uniform cdp (x ∷ xs) (t ∷ ts) h = ((h.0).2, uniform cdp xs ts h.1)

-- After the code masks.
abbrev pub SameCode : L3ca → L3ca → Type 0
SameCode a b =
    (a.class_id ≡ b.class_id) × (a.cdp ≡ true) × (b.cdp ≡ true) × (a.code_mask ≡ b.code_mask)

module _ (s t : Schemata) (r : List ℕ) (p : Printable t) where
  pub read_ways :
      Pointwise (SameL3 false) s.l3ca t.l3ca
      → read_lines (lines buf_size buf_size (print_table l3_type (map ways_mask t.l3ca) ++ r)) s
        ≡ read_lines (lines buf_size buf_size r) (record s { l3ca = t.l3ca })
  read_ways h =
      read_table l3_type write_data data_of (λ xs. record s { l3ca = xs })
        (λ (a : L3ca). a.cdp ≡ false) (2 ^ 64) (omega arith) (l3_step s) s.l3ca t.l3ca r (p.few).1
        (length-Pointwise (SameL3 false) s.l3ca t.l3ca h)
        (All-Pointwise (SameL3 false) (λ (a : L3ca). a.cdp ≡ false) (λ a b q. q.1) s.l3ca t.l3ca h)
        p.data_masks
      ∙ ap (λ (xs : List L3ca). read_lines (lines buf_size buf_size r) (record s { l3ca = xs }))
          (equal (fill write_data s.l3ca (map data_of t.l3ca)) t.l3ca (
            Pointwise-fill (SameL3 false) (λ (a b : L3ca). a ≡ b) write_data data_of
              (λ a b q. l3_equal a b q.0 (q.1 ∙ sym (q.2)) (q.3 refl)) s.l3ca t.l3ca h))

  pub read_data :
      (xs : List L3ca)
      → Pointwise SameCode xs t.l3ca
      → read_lines
          (lines buf_size buf_size (print_table l3data_type (map data_of t.l3ca) ++ r))
          (record s { l3ca = xs })
        ≡ read_lines (lines buf_size buf_size r) (record s { l3ca = t.l3ca })
  read_data xs h =
      read_table l3data_type write_data data_of (λ xs. record s { l3ca = xs })
        (λ (a : L3ca). a.cdp ≡ true) (2 ^ 64) (omega arith) (data_step s) xs t.l3ca r (p.few).1
        (length-Pointwise SameCode xs t.l3ca h)
        (All-Pointwise SameCode (λ (a : L3ca). a.cdp ≡ true) (λ a b q. q.1) xs t.l3ca h)
        p.data_masks
      ∙ ap (λ (xs : List L3ca). read_lines (lines buf_size buf_size r) (record s { l3ca = xs }))
          (equal (fill write_data xs (map data_of t.l3ca)) t.l3ca (
            Pointwise-fill SameCode (λ (a b : L3ca). a ≡ b) write_data data_of
              (λ a b q. l3_equal a b q.0 (q.1 ∙ sym (q.2)) q.3) xs t.l3ca h))

  pub read_code_data :
      Pointwise (SameL3 true) s.l3ca t.l3ca
      → read_lines
          (lines buf_size buf_size (
            (print_table l3code_type (map code_of t.l3ca)
              ++ print_table l3data_type (map data_of t.l3ca))
            ++ r))
          s
        ≡ read_lines (lines buf_size buf_size r) (record s { l3ca = t.l3ca })
  read_code_data h =
      let xs = fill write_code s.l3ca (map code_of t.l3ca) in
      ap (λ (text : List ℕ). read_lines (lines buf_size buf_size text) s)
        (append_assoc (print_table l3code_type (map code_of t.l3ca))
          (print_table l3data_type (map data_of t.l3ca)) r)
      ∙ read_table l3code_type write_code code_of (λ xs. record s { l3ca = xs })
          (λ (a : L3ca). a.cdp ≡ true) (2 ^ 64) (omega arith) (code_step s) s.l3ca t.l3ca
          (print_table l3data_type (map data_of t.l3ca) ++ r) (p.few).1
          (length-Pointwise (SameL3 true) s.l3ca t.l3ca h)
          (All-Pointwise (SameL3 true) (λ (a : L3ca). a.cdp ≡ true) (λ a b q. q.1) s.l3ca t.l3ca h)
          p.code_masks
      ∙ read_data xs (
          Pointwise-fill (SameL3 true) SameCode write_code code_of (λ a b q. (q.0, q.1, q.2, refl))
            s.l3ca t.l3ca h)

  pub read_l3 :
      (cdp : Bool)
      → Pointwise (SameL3 cdp) s.l3ca t.l3ca
      → read_lines (lines buf_size buf_size (print_l3 t.l3ca ++ r)) s
        ≡ read_lines (lines buf_size buf_size r) (record s { l3ca = t.l3ca })
  read_l3 true h = rw (l3_table true t.l3ca (uniform true s.l3ca t.l3ca h)) (read_code_data h)
  read_l3 false h = rw (l3_table false t.l3ca (uniform false s.l3ca t.l3ca h)) (read_ways h)
