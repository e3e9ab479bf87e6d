-- ===== src/Alloc/Assign.antt =====
-- The choice of an unused class in lib/allocation.c: `get_hi_cos_id`, `get_unused_cos`,
-- `hw_alloc_assign` and `hw_alloc_release`.
pub mod Unused
pub mod Cores
pub mod Entity
pub mod Release
use multi_resource_isolation.Prelude.{
  ℕ, zero, suc, ◌+◌, ◌-◌, ◌^◌, Bool, true, false, not, ◌||◌, ◌&&◌, bit_and, ltb, ◌==◌,
  if◌then◌else◌, u32, List, [], ◌∷◌, Option, none, some,
}
use multi_resource_isolation.Types.{
  Retval, Result, ok, err, Action, pure, lift, fail_if, ◌>>=◌, ◌>>◌,
}
use multi_resource_isolation.Msr.{Msr}
use multi_resource_isolation.Cpu.{Coreinfo, Cpuinfo, get_core_info}
use multi_resource_isolation.Cap.{l3ca_get_cos_num, l2ca_get_cos_num, mba_get_cos_num}
use multi_resource_isolation.Alloc.{Platform, max_l3ca_cos}
use multi_resource_isolation.Alloc.Assoc.{tolerate, cos_assoc_get, cos_assoc_set}

-- The bits `1 << PQOS_CAP_TYPE_*` of a `technology` mask.
abbrev pub l3_req : ℕ → Bool
l3_req technology = not (bit_and technology 2 == 0)

abbrev pub l2_req : ℕ → Bool
l2_req technology = not (bit_and technology 4 == 0)

abbrev pub mba_req : ℕ → Bool
mba_req technology = not (bit_and technology 8 == 0)

-- One block of `get_hi_cos_id`: `num_cos` lowered to the classes of a technology.
abbrev pub lower_to : ℕ → Result ℕ → Result ℕ
lower_to num_cos (err e) = err e
lower_to num_cos (ok n) =
    if n == 0 then err Retval.error else ok (if num_cos == 0 || ltb n num_cos then n else num_cos)

abbrev pub and_then : Result ℕ → (ℕ → Result ℕ) → Result ℕ
and_then (ok n) f = f n
and_then (err e) f = err e

unfoldable pub get_hi_cos_id : Platform → ℕ → Result ℕ
get_hi_cos_id p technology =
    and_then
      (and_then
        (and_then
          (if l3_req technology
            then lower_to 0 (tolerate (l3ca_get_cos_num p.interface p.cap))
            else ok 0)
          (λ n.
            if l2_req technology
            then lower_to n (tolerate (l2ca_get_cos_num p.interface p.cap))
            else ok n))
        (λ n.
          if mba_req technology
          then lower_to n (tolerate (mba_get_cos_num p.interface p.cap))
          else ok n))
      (λ num_cos. ok (u32 (num_cos + 2 ^ 32 - 1)))

-- The entity that a class is looked for on: the L2 cluster where L2 is requested, else the socket.
abbrev pub entity_of : Bool → Coreinfo → ℕ
entity_of l2 c = if l2 then c.l2_id else c.socket

-- `used_classes` is an array of PQOS_MAX_L3CA_COS entries, kept as a function of the index. The code
-- indexes it up to `hi_class_id`, which may lie past its end.
abbrev pub cleared_classes : Platform → ℕ → Bool
cleared_classes p k = if ltb k max_l3ca_cos then false else p.undefined.past_classes k

-- `used_classes[cos] = 1`; past the end it is no store to the array.
abbrev pub mark : ℕ → (ℕ → Bool) → ℕ → Bool
mark cos used k = if k == cos && ltb cos max_l3ca_cos then true else used k

-- `for (cos = hi_class_id; cos != 0; cos--)`
unfoldable pub find_unused : (ℕ → Bool) → ℕ → Result ℕ
find_unused used zero = err Retval.resource
find_unused used (suc cos) = if used (suc cos) then find_unused used cos else ok (suc cos)

-- The first loop of `hw_alloc_assign`: the one entity that all cores belong to. `found` is the
-- entity of the cores so far, or `none` before the first.
unfoldable pub common_entity : Platform → Bool → List ℕ → Option ℕ → Result (Option ℕ)
common_entity p l2 [] found = ok found
common_entity p l2 (lcore ∷ core_array) found = elim (get_core_info p.cpu lcore) [
  | none ↦ err Retval.param
  | some pi ↦ elim found [
    | none ↦ common_entity p l2 core_array (some (entity_of l2 pi))
    | some id ↦ elim (id == entity_of l2 pi) [
      | true ↦ common_entity p l2 core_array (some (entity_of l2 pi))
      | false ↦ err Retval.param
    ]
  ]
]

-- `if (cos_assoc_set(...) != PQOS_RETVAL_OK) ret = PQOS_RETVAL_ERROR;`
abbrev pub after : Result (Unit {0}) → Result (Unit {0}) → Result (Unit {0})
after ret (ok u) = ret
after ret (err e) = err Retval.error

module _ (m : Msr) where
  -- The classes in use by the cores of an entity.
  unfoldable pub used_on : Bool → ℕ → ℕ → List Coreinfo → (ℕ → Bool) → Action m.State (ℕ → Bool)
  used_on l2 id hi_class_id [] used = pure used
  used_on l2 id hi_class_id (c ∷ cs) used = elim (entity_of l2 c == id) [
    | false ↦ used_on l2 id hi_class_id cs used
    | true ↦ do
      cos ← cos_assoc_get m c.lcore
      used_on l2 id hi_class_id cs (if ltb hi_class_id cos then used else mark cos used)
  ]

  -- `hw_alloc_release`: a failure is reported, and does not stop the loop.
  unfoldable pub release_all : List ℕ → Result (Unit {0}) → Action m.State (Unit {0})
  release_all [] ret s = (ret, s)
  release_all (lcore ∷ core_array) ret s =
      let (r, s') = cos_assoc_set m lcore 0 s in release_all core_array (after ret r) s'

  unfoldable pub hw_alloc_release : List ℕ → Action m.State (Unit {0})
  unfolding release_all
  hw_alloc_release core_array = release_all core_array (ok tt)

  -- The loop of `hw_alloc_assign` that associates the cores.
  unfoldable pub assign_all : List ℕ → ℕ → Action m.State (Unit {0})
  assign_all [] class_id = pure tt
  assign_all (lcore ∷ core_array) class_id = do
    cos_assoc_set m lcore class_id
    assign_all core_array class_id

  module _ (p : Platform) where
    unfoldable pub get_unused_cos : ℕ → ℕ → Action m.State ℕ
    get_unused_cos id technology = do
      hi_class_id ← lift (get_hi_cos_id p technology)
      used ← used_on (l2_req technology) id hi_class_id p.cpu.cores (cleared_classes p)
      lift (find_unused used hi_class_id)

    -- `socket` and `l2id` start at 0.
    unfoldable pub hw_alloc_assign : ℕ → List ℕ → Action m.State ℕ
    hw_alloc_assign technology core_array = do
      found ← lift (common_entity p (l2_req technology) core_array none)
      class_id ← get_unused_cos (elim found [ some id ↦ id | none ↦ 0 ]) technology
      assign_all core_array class_id
      pure class_id
