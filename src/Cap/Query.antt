-- ===== src/Cap/Query.antt =====
-- What the capability queries of lib/utils.c promise.
use multi_resource_isolation.Prelude.{
  ◌≡◌, refl, ap, ◌∙◌, ◌⊎◌, inl, inr, Bool, true, false, List, [], ◌∷◌, arith, In,
}
use multi_resource_isolation.Types.{Result-cases, Result, ok, err, Retval}
use multi_resource_isolation.Cap.{
  Interface, CapL3ca, CapType, mon_type, l3ca_type, l2ca_type, mba_type, CapItem, mon_item,
  l3ca_item, l2ca_item, mba_item, Capability, Cap, type_of, same_type, hidden, type_in, get_type,
  l3ca_get_cos_num, l3ca_cdp_enabled,
}

-- The entry that a query returns: one of the table, of the type asked for, and usable through
-- the interface.
pub record IsAnswer (interface : Interface) (type : CapType) (cs : List Capability) (c : Capability)
    : Type 0 where
  pub member : In c cs
  pub typed : type_of c.u ≡ type
  pub usable : hidden interface c.os_support ≡ false

same_type-eq : (s t : CapType) → same_type s t ≡ true → s ≡ t
same_type-eq s t e = ground arith

type_in-IsAnswer :
    (i : Interface) (t : CapType) (cs : List Capability) {c : Capability}
    → type_in i t cs ≡ ok c
    → IsAnswer i t cs c
unfolding type_in
type_in-IsAnswer i t [] e = cc
type_in-IsAnswer i t (d ∷ cs) {c} e =
    ground (arith, same_type-eq (type_of d.u) t, type_in-IsAnswer i t cs {c = c})

-- What a capability query may return: the answer, or the resource code where no entry fits.
abbrev pub Answers : Interface → CapType → List Capability → Result Capability → Type 0
Answers i t cs (ok c) = IsAnswer i t cs c
Answers i t cs (err e) =
    (e ≡ Retval.resource)
    × ((c : Capability) → In c cs → type_of c.u ≡ t → hidden i c.os_support ≡ true)

same_type_self : (t : CapType) → same_type t t ≡ true
same_type_self mon_type = refl
same_type_self l3ca_type = refl
same_type_self l2ca_type = refl
same_type_self mba_type = refl

type_in-later :
    (i : Interface) (t : CapType) (d : Capability) (cs : List Capability) {e : Retval}
    → type_in i t (d ∷ cs) ≡ err e
    → type_in i t cs ≡ err e
unfolding type_in
type_in-later i t d cs h = ground arith

type_in-skipped :
    (i : Interface) (t : CapType) (d : Capability) (cs : List Capability) {e : Retval}
    → type_in i t (d ∷ cs) ≡ err e
    → (c : Capability) → c ≡ d
    → type_of c.u ≡ t
    → hidden i c.os_support ≡ true
unfolding type_in
type_in-skipped i t d cs h c same p =
    let fits : same_type (type_of d.u) t ≡ true = rw (← same) (rw p (same_type_self t)) in
    rw same (ground arith)

type_in-err :
    (i : Interface) (t : CapType) (cs : List Capability) {e : Retval}
    → type_in i t cs ≡ err e
    → (e ≡ Retval.resource)
      × ((c : Capability) → In c cs → type_of c.u ≡ t → hidden i c.os_support ≡ true)
unfolding type_in
type_in-err i t [] h = (ground arith, λ c j p. absurd j)
type_in-err i t (d ∷ cs) {e} h =
    let (r, none_fits) = type_in-err i t cs (type_in-later i t d cs h) in
    (
      r,
      λ c j p. elim j [
        | inl same ↦ type_in-skipped i t d cs h c same p
        | inr later ↦ none_fits c later p
      ],
    )

type_in-Answers :
    (i : Interface) (t : CapType) (cs : List Capability) → Answers i t cs (type_in i t cs)
type_in-Answers i t cs = elim (Result-cases (type_in i t cs)) [
  | inl (c, e) ↦ rw e (type_in-IsAnswer i t cs e)
  | inr (r, e) ↦ rw e (type_in-err i t cs e)
]

-- `pqos_cap_get_type` returns an entry of the table that has the type asked for and is usable
-- through the interface in force; where it fails, the code is RESOURCE and every entry of that
-- type is hidden from the interface.
get_type-Answers :
    (i : Interface) (cap : Cap) (t : CapType) → Answers i t cap.capabilities (get_type i cap t)
unfolding get_type
get_type-Answers i cap t = type_in-Answers i t cap.capabilities

-- The entry of an L3 capability, with its flag and its member of the union.
abbrev pub l3ca_entry : Bool → CapL3ca → Capability
l3ca_entry support m = record { os_support = support; u = l3ca_item m }

-- Both queries about L3 read one entry.
abbrev ReadsL3 : Interface → Cap → Type 0
ReadsL3 i cap =
    ((support : Bool) × (m : CapL3ca) × In (l3ca_entry support m) cap.capabilities
      × (l3ca_get_cos_num i cap ≡ ok m.num_classes)
      × (l3ca_cdp_enabled i cap ≡ ok (m.cdp, m.cdp_on)))
    ⊎ ((l3ca_get_cos_num i cap ≡ err Retval.resource)
        × (l3ca_cdp_enabled i cap ≡ err Retval.resource))

reads_l3 :
    (i : Interface) (cap : Cap) (support : Bool) (item : CapItem)
    → get_type i cap l3ca_type ≡ ok (record { os_support = support; u = item })
    → IsAnswer i l3ca_type cap.capabilities (record { os_support = support; u = item })
    → ReadsL3 i cap
unfolding l3ca_get_cos_num l3ca_cdp_enabled
reads_l3 i cap support (l3ca_item m) e a = inl (support, m, a.member, cc, cc)
reads_l3 i cap support (mon_item m) e a = absurd (ground (arith, a.typed))
reads_l3 i cap support (l2ca_item m) e a = absurd (ground (arith, a.typed))
reads_l3 i cap support (mba_item m) e a = absurd (ground (arith, a.typed))

no_l3 : (i : Interface) (cap : Cap) → get_type i cap l3ca_type ≡ err Retval.resource → ReadsL3 i cap
unfolding l3ca_get_cos_num l3ca_cdp_enabled
no_l3 i cap e = inr (cc, cc)

-- `pqos_l3ca_get_cos_num` and `pqos_l3ca_cdp_enabled` both read the L3 member of one and the same
-- table entry, or both fail with RESOURCE; so neither reads another member of the union.
l3_queries_agree : (i : Interface) (cap : Cap) → ReadsL3 i cap
l3_queries_agree i cap = elim (Result-cases (get_type i cap l3ca_type)) [
  | inl (c, e) ↦ reads_l3 i cap c.os_support c.u e (rw e at (get_type-Answers i cap l3ca_type))
  | inr (r, e) ↦
      let (resource, _) =
        (let a : Answers i l3ca_type cap.capabilities (err r) =
            rw e at (get_type-Answers i cap l3ca_type) in
          a) in
      no_l3 i cap (e ∙ ap err resource)
]
