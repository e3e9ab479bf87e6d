-- ===== src/Rctl/Schemata.antt =====
-- lib/resctrl_alloc.c, `resctrl_alloc_schemata_*`: the masks and rates of a class and their file.
-- The lengths of the three tables stand for `l3ca_num`, `l2ca_num` and `mba_num`.
pub mod Text
use multi_resource_isolation.Prelude.{
  ℕ, zero, suc, ◌+◌, ◌-◌, Bool, true, false, not, ltb, leb, ◌==◌, ◌||◌, ◌&&◌, if◌then◌else◌, List,
  [], ◌∷◌, ◌++◌, Option, none, some, length, get_elem?, set, replicate, u32,
}
use multi_resource_isolation.Types.{Result, ok, err, Retval, Action}
use multi_resource_isolation.Cpu.{Cpuinfo, get_sockets, get_l2ids}
use multi_resource_isolation.Cap.{
  Interface, Cap, l3ca_get_cos_num, l2ca_get_cos_num, mba_get_cos_num, l3ca_cdp_enabled,
}
use multi_resource_isolation.Alloc.L3.{L3ca}
use multi_resource_isolation.Alloc.L2.{L2ca}
use multi_resource_isolation.Alloc.Mba.{Mba}
use multi_resource_isolation.Rctl.{File, Files, read_text, write_text}

-- `struct resctrl_alloc_schemata`
pub record Schemata : Type 0 where
  pub l3ca : List L3ca
  pub l2ca : List L2ca
  pub mba : List Mba

-- Which parts of `schemata_init` get their memory.
pub record Granted : Type 0 where
  pub l2 : Bool
  pub l3 : Bool
  pub mba : Bool

-- `retval == PQOS_RETVAL_OK && class_id < num_cos`
abbrev pub has_class : ℕ → Result ℕ → Bool
has_class class_id (ok num_cos) = ltb class_id num_cos
has_class class_id (err e) = false

module _ (interface : Interface) (cap : Cap) (cpu : Cpuinfo) (granted : Granted)
    (class_id : ℕ) where
  unfoldable pub init_l2 : Result (List L2ca)
  init_l2 =
      if has_class class_id (l2ca_get_cos_num interface cap)
      then elim (get_l2ids granted.l2 cpu) [
        | none ↦ err Retval.error
        | some ids ↦ ok (replicate (length ids) (record { class_id = class_id; ways_mask = 0 }))
      ]
      else ok []

  unfoldable pub init_l3 : Result (List L3ca)
  init_l3 =
      if has_class class_id (l3ca_get_cos_num interface cap)
      then elim (get_sockets granted.l3 cpu) [
        | none ↦ err Retval.error
        | some ids ↦ elim (l3ca_cdp_enabled interface cap) [
          | err e ↦ err e
          | ok cdp ↦ ok (
              replicate (length ids)
                (record { class_id = class_id; cdp = cdp.1; data_mask = 0; code_mask = 0 }))
        ]
      ]
      else ok []

  unfoldable pub init_mba : Result (List Mba)
  init_mba =
      if has_class class_id (mba_get_cos_num interface cap)
      then elim (get_sockets granted.mba cpu) [
        | none ↦ err Retval.error
        | some ids ↦ ok (replicate (length ids) (record { class_id = class_id; mb_rate = 100 }))
      ]
      else ok []

  unfoldable pub schemata_init : Result Schemata
  schemata_init = elim init_l2 [
    | err e ↦ err e
    | ok l2 ↦ elim init_l3 [
      | err e ↦ err e
      | ok l3 ↦ elim init_mba [
        | err e ↦ err e
        | ok mba ↦ ok (record { l3ca = l3; l2ca = l2; mba = mba })
      ]
    ]
  ]

-- `enum resctrl_alloc_schemata_type`, without NONE
pub data SchemataType : Type 0 where
  l2_type l3_type l3code_type l3data_type mb_type : SchemataType

-- L3 lines go with the CDP setting of the entry.
abbrev pub same_setting : Bool → Bool → Bool
same_setting cdp true = cdp
same_setting cdp false = not cdp

abbrev pub put_l3 : Schemata → ℕ → Bool → (L3ca → L3ca) → Result Schemata
put_l3 s res_id cdp f = elim (get_elem? s.l3ca res_id) [
  | none ↦ err Retval.error
  | some ca ↦
      if same_setting cdp ca.cdp
      then ok (record s { l3ca = set res_id (f ca) s.l3ca })
      else err Retval.error
]

-- The id is cut to 32 bits by the call, and the mask of L2 and the rate by their fields.
unfoldable pub schemata_set : ℕ → ℕ → SchemataType → Schemata → Result Schemata
schemata_set id value l2_type s = elim (get_elem? s.l2ca (u32 id)) [
  | none ↦ err Retval.error
  | some ca ↦ ok (record s { l2ca = set (u32 id) (record ca { ways_mask = u32 value }) s.l2ca })
]
schemata_set id value l3_type s = put_l3 s (u32 id) false (λ ca. record ca { data_mask = value })
schemata_set id value l3code_type s = put_l3 s (u32 id) true (λ ca. record ca { code_mask = value })
schemata_set id value l3data_type s = put_l3 s (u32 id) true (λ ca. record ca { data_mask = value })
schemata_set id value mb_type s = elim (get_elem? s.mba (u32 id)) [
  | none ↦ err Retval.error
  | some m ↦ ok (record s { mba = set (u32 id) (record m { mb_rate = u32 value }) s.mba })
]
