-- ===== src/Rctl/Schemata/Text/Steps.antt =====
-- What one entry of each type of line sets, of the text of lib/resctrl_alloc.c.
use multi_resource_isolation.Prelude.{
  ℕ, ◌≤◌, ◌<◌, ◌^◌, ◌≡◌, refl, ap, ◌∙◌, arith, Bool, true, false, List, [], ◌∷◌, ◌++◌, length, u32,
}
use multi_resource_isolation.Types.{ok, err}
use multi_resource_isolation.Alloc.L3.{L3ca}
use multi_resource_isolation.Alloc.L2.{L2ca}
use multi_resource_isolation.Alloc.Mba.{Mba}
use multi_resource_isolation.Rctl.Schemata.{
  Schemata, SchemataType, schemata_set, put_l3, same_setting, l2_type, l3_type, l3code_type,
  l3data_type, mb_type,
}
use multi_resource_isolation.Rctl.Schemata.Text.{buf_size, lines, read_lines, print_table}
use multi_resource_isolation.Rctl.Schemata.Text.Lexing.{set_all, Fits64}
use multi_resource_isolation.Rctl.Schemata.Text.Setting.{read_line-print_line, lines-print_line}
use multi_resource_isolation.Rctl.Schemata.Text.Pairs.{get_elem?-middle, set-middle}

-- A table of the file.
pub read_lines-print_table :
    (type : SchemataType) (vs r : List ℕ) (s : Schemata)
    → length vs ≤ 100
    → Fits64 vs
    → read_lines (lines buf_size buf_size (print_table type vs ++ r)) s
      ≡ (elim (set_all type 0 vs s) [
        | err e ↦ err e
        | ok s' ↦ read_lines (lines buf_size buf_size r) s'
      ])
unfolding print_table read_lines set_all
read_lines-print_table type [] r s h f = refl
read_lines-print_table type (v ∷ vs) r s h f =
    rw
      (
        lines-print_line type (v ∷ vs) r h,
        read_lines,
        read_line-print_line type v vs s (omega arith) f,
      )
      refl

pub small-u32 : (i : ℕ) → i < 2 ^ 32 → u32 i ≡ i
small-u32 i h = omega arith

pub own : (cdp : Bool) → same_setting cdp cdp ≡ true
own true = refl
own false = refl

-- Each type of line sets its field.
module _ (s : Schemata) where
  pub l2_step :
      (pre post : List L2ca) (a : L2ca) (v : ℕ)
      → Unit {0}
      → v < 2 ^ 32
      → length pre < 2 ^ 32
      → schemata_set (length pre) v l2_type (record s { l2ca = pre ++ (a ∷ post) })
        ≡ ok (record s { l2ca = pre ++ (record a { ways_mask = v } ∷ post) })
  unfolding schemata_set
  l2_step pre post a v o f n =
      rw
        (
          schemata_set,
          small-u32 (length pre) n,
          get_elem?-middle pre post a,
          small-u32 (length pre) n,
          small-u32 v f,
          set-middle pre post a (record a { ways_mask = v }),
        )
        refl

  pub mb_step :
      (pre post : List Mba) (a : Mba) (v : ℕ)
      → Unit {0}
      → v < 2 ^ 32
      → length pre < 2 ^ 32
      → schemata_set (length pre) v mb_type (record s { mba = pre ++ (a ∷ post) })
        ≡ ok (record s { mba = pre ++ (record a { mb_rate = v } ∷ post) })
  unfolding schemata_set
  mb_step pre post a v o f n =
      rw
        (
          schemata_set,
          small-u32 (length pre) n,
          get_elem?-middle pre post a,
          small-u32 (length pre) n,
          small-u32 v f,
          set-middle pre post a (record a { mb_rate = v }),
        )
        refl

  pub put_step :
      (pre post : List L3ca) (a : L3ca) (cdp : Bool) (f : L3ca → L3ca)
      → a.cdp ≡ cdp
      → length pre < 2 ^ 32
      → put_l3 (record s { l3ca = pre ++ (a ∷ post) }) (u32 (length pre)) cdp f
        ≡ ok (record s { l3ca = pre ++ (f a ∷ post) })
  put_step pre post a cdp f o n =
      let e : same_setting cdp a.cdp ≡ true = ap (same_setting cdp) o ∙ own cdp in
      rw
        (
          put_l3,
          small-u32 (length pre) n,
          get_elem?-middle pre post a,
          e,
          small-u32 (length pre) n,
          set-middle pre post a (f a),
        )
        refl

  pub l3_step :
      (pre post : List L3ca) (a : L3ca) (v : ℕ)
      → a.cdp ≡ false
      → v < 2 ^ 64
      → length pre < 2 ^ 32
      → schemata_set (length pre) v l3_type (record s { l3ca = pre ++ (a ∷ post) })
        ≡ ok (record s { l3ca = pre ++ (record a { data_mask = v } ∷ post) })
  unfolding schemata_set
  l3_step pre post a v o f n =
      put_step pre post a false (λ (c : L3ca). record c { data_mask = v }) o n

  pub data_step :
      (pre post : List L3ca) (a : L3ca) (v : ℕ)
      → a.cdp ≡ true
      → v < 2 ^ 64
      → length pre < 2 ^ 32
      → schemata_set (length pre) v l3data_type (record s { l3ca = pre ++ (a ∷ post) })
        ≡ ok (record s { l3ca = pre ++ (record a { data_mask = v } ∷ post) })
  unfolding schemata_set
  data_step pre post a v o f n =
      put_step pre post a true (λ (c : L3ca). record c { data_mask = v }) o n

  pub code_step :
      (pre post : List L3ca) (a : L3ca) (v : ℕ)
      → a.cdp ≡ true
      → v < 2 ^ 64
      → length pre < 2 ^ 32
      → schemata_set (length pre) v l3code_type (record s { l3ca = pre ++ (a ∷ post) })
        ≡ ok (record s { l3ca = pre ++ (record a { code_mask = v } ∷ post) })
  unfolding schemata_set
  code_step pre post a v o f n =
      put_step pre post a true (λ (c : L3ca). record c { code_mask = v }) o n
