-- ===== src/Api/Tables.antt =====
-- The functions of lib/api.c on class tables. An argument `Option` is a pointer that may be NULL; a
-- Boolean `out` says that no pointer to a result is NULL.
use multi_resource_isolation.Prelude.{
  ℕ, Bool, true, false, not, ◌&&◌, ◌||◌, ltb, ◌==◌, if◌then◌else◌, List, [], ◌∷◌, Option, none,
  some,
}
use multi_resource_isolation.Types.{Retval, Action, fail}
use multi_resource_isolation.Mask.{is_contiguous}
use multi_resource_isolation.Alloc.L3.{L3ca, ways_mask}
use multi_resource_isolation.Alloc.L2.{L2ca}
use multi_resource_isolation.Alloc.Mba.{Mba}
use multi_resource_isolation.Api.{Backends, Library, dispatch, under_lock, refuse_if}

-- `ca == NULL || num_cos == 0`
abbrev pub no_entries : {A : Type 0} → Option (List A) → Bool
no_entries none = true
no_entries (some []) = true
no_entries (some (a ∷ as_)) = false

abbrev pub entries_of : {A : Type 0} → Option (List A) → List A
entries_of none = []
entries_of (some xs) = xs

abbrev pub l3_contiguous : L3ca → Bool
l3_contiguous ca =
    if ca.cdp
    then is_contiguous ca.data_mask && is_contiguous ca.code_mask
    else is_contiguous (ways_mask ca)

-- The loops over the masks and the rates, which end at the first that is refused.
unfoldable pub all_l3_contiguous : List L3ca → Bool
all_l3_contiguous [] = true
all_l3_contiguous (ca ∷ cas) = if l3_contiguous ca then all_l3_contiguous cas else false

unfoldable pub all_l2_contiguous : List L2ca → Bool
all_l2_contiguous [] = true
all_l2_contiguous (ca ∷ cas) = if is_contiguous ca.ways_mask then all_l2_contiguous cas else false

unfoldable pub all_rates : List Mba → Bool
all_rates [] = true
all_rates (r ∷ rs) = if r.mb_rate == 0 || ltb 100 r.mb_rate then false else all_rates rs

module _ {S : Type 0} (b : Backends S) where
  unfoldable pub pqos_l3ca_set : ℕ → Option (List L3ca) → Action (Library S) (Unit {0})
  pqos_l3ca_set socket ca = refuse_if (no_entries ca) (
      under_lock (
        if all_l3_contiguous (entries_of ca)
        then dispatch b (λ i. i.l3ca_set socket (entries_of ca))
        else fail Retval.param))

  unfoldable pub pqos_l3ca_get : ℕ → Bool → Option (List L3ca) → Action (Library S) (List L3ca)
  pqos_l3ca_get socket out ca =
      refuse_if (not out || no_entries ca)
        (under_lock (dispatch b (λ i. i.l3ca_get socket (entries_of ca))))

  unfoldable pub pqos_l3ca_get_min_cbm_bits : Bool → Action (Library S) (Option ℕ)
  pqos_l3ca_get_min_cbm_bits out = refuse_if (not out) (under_lock (dispatch b (λ i. i.l3ca_min)))

  unfoldable pub pqos_l2ca_set : ℕ → Option (List L2ca) → Action (Library S) (Unit {0})
  pqos_l2ca_set l2id ca = refuse_if (no_entries ca) (
      under_lock (
        if all_l2_contiguous (entries_of ca)
        then dispatch b (λ i. i.l2ca_set l2id (entries_of ca))
        else fail Retval.param))

  unfoldable pub pqos_l2ca_get : ℕ → ℕ → Bool → Action (Library S) (List L2ca)
  pqos_l2ca_get l2id max_num_ca out =
      refuse_if (not out || max_num_ca == 0)
        (under_lock (dispatch b (λ i. i.l2ca_get l2id max_num_ca)))

  unfoldable pub pqos_l2ca_get_min_cbm_bits : Bool → Action (Library S) (Option ℕ)
  pqos_l2ca_get_min_cbm_bits out = refuse_if (not out) (under_lock (dispatch b (λ i. i.l2ca_min)))

  -- `wanted` says that the table `actual` is not NULL.
  unfoldable pub pqos_mba_set : ℕ → Option (List Mba) → Bool → Action (Library S) (List Mba)
  pqos_mba_set socket requested wanted = refuse_if (no_entries requested) (
      refuse_if (not (all_rates (entries_of requested)))
        (under_lock (dispatch b (λ i. i.mba_set socket (entries_of requested) wanted))))

  unfoldable pub pqos_mba_get : ℕ → ℕ → Bool → Action (Library S) (List Mba)
  pqos_mba_get socket max_num_cos out =
      refuse_if (not out || max_num_cos == 0)
        (under_lock (dispatch b (λ i. i.mba_get socket max_num_cos)))
