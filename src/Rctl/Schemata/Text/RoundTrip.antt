-- ===== src/Rctl/Schemata/Text/RoundTrip.antt =====
-- What `schemata_write` writes, `schemata_read` reads back.
use multi_resource_isolation.Prelude.{
  ℕ, ◌≡◌, refl, sym, ap, ◌∙◌, Bool, List, [], ◌++◌, append-nil, map,
}
use multi_resource_isolation.Types.{ok}
use multi_resource_isolation.Alloc.Mba.{Mba}
use multi_resource_isolation.Rctl.Schemata.{Schemata, mb_type}
use multi_resource_isolation.Rctl.Schemata.Text.{
  buf_size, lines, read_lines, print_table, print_l3, print_schemata,
}
use multi_resource_isolation.Rctl.Schemata.Text.Pairs.{Pointwise}
use multi_resource_isolation.Rctl.Schemata.Text.Tables.{
  SameL2, SameMba, SameL3, Printable, read_l2, read_mba, read_l3,
}

done : (t : Schemata) → read_lines (lines buf_size buf_size []) t ≡ ok t
unfolding read_lines lines
done t = refl

-- A printed file reads back: read into tables of the same lengths, with the classes and the CDP
-- setting of `t`, whatever masks and rates they hold, the text that is written for `t` gives `t`.
-- The tables of `t` have at most 100 entries each, the L3 entries one CDP setting, the masks and
-- rates fit their types, and without CDP the code masks, which no file holds, are those of `t`.
pub read_lines-print_schemata :
    (s t : Schemata) (cdp : Bool)
    → Printable t
    → Pointwise SameL2 s.l2ca t.l2ca
    → Pointwise (SameL3 cdp) s.l3ca t.l3ca
    → Pointwise SameMba s.mba t.mba
    → read_lines (lines buf_size buf_size (print_schemata t)) s ≡ ok t
unfolding print_schemata
read_lines-print_schemata s t cdp p h2 h3 hm =
    let rates = print_table mb_type (map (λ (m : Mba). m.mb_rate) t.mba) in
    read_l2 s t (print_l3 t.l3ca ++ rates) p h2
    ∙ read_l3 (record s { l2ca = t.l2ca }) t rates p cdp h3
    ∙ ap
        (λ (text : List ℕ).
          read_lines (lines buf_size buf_size text) (record s { l2ca = t.l2ca; l3ca = t.l3ca }))
        (sym (append-nil rates))
    ∙ read_mba (record s { l2ca = t.l2ca; l3ca = t.l3ca }) t [] p hm
    ∙ done t
