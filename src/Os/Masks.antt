-- ===== src/Os/Masks.antt =====
-- lib/os_allocation.c: the tables of classes, `os_l3ca_*`, `os_l2ca_*` and `os_mba_*`.
use multi_resource_isolation.Prelude.{
  ℕ, zero, suc, ◌+◌, ◌*◌, ◌/◌, Bool, true, false, not, ◌&&◌, ltb, leb, ◌==◌, if◌then◌else◌, List,
  [], ◌∷◌, Option, none, some, length, get_elem?, set, u32,
}
use multi_resource_isolation.Types.{
  Retval, Result, ok, err, Action, pure, lift, fail_if, ◌>>=◌, ◌>>◌,
}
use multi_resource_isolation.Cpu.{get_sockets, get_l2ids}
use multi_resource_isolation.Cap.{
  l3ca_get_cos_num, l2ca_get_cos_num, l3ca_cdp_enabled, get_type, as_mba, mba_type,
}
use multi_resource_isolation.Alloc.{Platform}
use multi_resource_isolation.Alloc.L3.{L3ca, ways_mask}
use multi_resource_isolation.Alloc.L2.{L2ca, or_resource}
use multi_resource_isolation.Alloc.Mba.{Mba}
use multi_resource_isolation.Rctl.{Files}
use multi_resource_isolation.Rctl.Groups.{get_grps_num}
use multi_resource_isolation.Rctl.Schemata.{Schemata, Granted, schemata_init}
use multi_resource_isolation.Rctl.Schemata.Text.{schemata_read, schemata_write}

-- NULL or an empty list of sockets or clusters is ERROR, and so is an id out of range for the rates;
-- for the masks it is PARAM.
unfoldable pub check_id : Retval → ℕ → Option (List ℕ) → Result (Unit {0})
check_id e id none = err Retval.error
check_id e id (some []) = err Retval.error
check_id e id (some (x ∷ xs)) = if leb (length (x ∷ xs)) id then err e else ok tt

abbrev pub l2_out_of_range : ℕ → List L2ca → Bool
l2_out_of_range count [] = false
l2_out_of_range count (ca ∷ cas) = if leb count ca.class_id then true else l2_out_of_range count cas

abbrev pub mba_out_of_range : ℕ → List Mba → Bool
mba_out_of_range count [] = false
mba_out_of_range count (r ∷ rs) = if leb count r.class_id then true else mba_out_of_range count rs

-- The entry that the caller's becomes: with CDP on, a single mask is both masks.
unfoldable pub l3_entry : Bool → L3ca → L3ca → L3ca
l3_entry cdp_enabled ca old =
    if cdp_enabled && not ca.cdp
    then record old { cdp = true; data_mask = ways_mask ca; code_mask = ways_mask ca }
    else ca

-- The rate rounded to the step, at least one step, in 32-bit unsigned arithmetic. A `step` of 0
-- faults in C.
unfoldable pub rounded : ℕ → ℕ → ℕ
rounded step mb_rate =
    let rate = u32 (u32 (mb_rate + step / 2) / step * step) in if rate == 0 then step else rate

-- `schmt.l3ca[socket]` and its like. A table that is NULL or too short is undefined in the source:
-- here the call fails.
abbrev pub entry_at : {A : Type 0} → ℕ → List A → Result A
entry_at i xs = elim (get_elem? xs i) [ none ↦ err Retval.error | some x ↦ ok x ]

module _ {S : Type 0} (fs : Files S) (p : Platform) (granted : Granted) where
  -- What every function starts with: the tables of a class as its file has them.
  unfoldable pub load : ℕ → Action S Schemata
  load class_id = do
    schmt ← lift (schemata_init p.interface p.cap p.cpu granted class_id)
    schemata_read fs class_id schmt

  unfoldable pub set_l3 : ℕ → Bool → List L3ca → Action S (Unit {0})
  set_l3 socket cdp_enabled [] = pure tt
  set_l3 socket cdp_enabled (ca ∷ cas) = do
    fail_if (ca.cdp && not cdp_enabled) Retval.error
    schmt ← load ca.class_id
    old ← lift (entry_at socket schmt.l3ca)
    schemata_write fs ca.class_id
        (record schmt { l3ca = set socket (l3_entry cdp_enabled ca old) schmt.l3ca })
    set_l3 socket cdp_enabled cas

  unfoldable pub os_l3ca_set : Bool → ℕ → List L3ca → Action S (Unit {0})
  os_l3ca_set sockets socket ca = do
    l3ca_num ← lift (or_resource (l3ca_get_cos_num p.interface p.cap))
    num_grps ← lift (get_grps_num p.interface p.cap)
    fail_if (ltb num_grps (length ca)) Retval.error
    lift (check_id Retval.param socket (get_sockets sockets p.cpu))
    cdp ← lift (l3ca_cdp_enabled p.interface p.cap)
    set_l3 socket cdp.1 ca

  -- The loops of the `get` functions: `n` rounds left, class `i`.
  unfoldable pub get_l3 : ℕ → ℕ → ℕ → Action S (List L3ca)
  get_l3 socket zero i = pure []
  get_l3 socket (suc n) i = do
    schmt ← load i
    ca ← lift (entry_at socket schmt.l3ca)
    rest ← get_l3 socket n (i + 1)
    pure (ca ∷ rest)

  unfoldable pub os_l3ca_get : Bool → ℕ → ℕ → Action S (List L3ca)
  os_l3ca_get sockets socket max_num_ca = do
    l3ca_num ← lift (or_resource (l3ca_get_cos_num p.interface p.cap))
    count ← lift (get_grps_num p.interface p.cap)
    fail_if (ltb max_num_ca count) Retval.error
    lift (check_id Retval.param socket (get_sockets sockets p.cpu))
    get_l3 socket count 0

  unfoldable pub set_l2 : ℕ → List L2ca → Action S (Unit {0})
  set_l2 l2id [] = pure tt
  set_l2 l2id (ca ∷ cas) = do
    schmt ← load ca.class_id
    old ← lift (entry_at l2id schmt.l2ca)
    schemata_write fs ca.class_id (record schmt { l2ca = set l2id ca schmt.l2ca })
    set_l2 l2id cas

  unfoldable pub os_l2ca_set : Bool → ℕ → List L2ca → Action S (Unit {0})
  os_l2ca_set l2ids l2id ca = do
    l2ca_num ← lift (or_resource (l2ca_get_cos_num p.interface p.cap))
    num_grps ← lift (get_grps_num p.interface p.cap)
    fail_if (ltb num_grps (length ca)) Retval.param
    fail_if (l2_out_of_range l2ca_num ca) Retval.param
    lift (check_id Retval.param l2id (get_l2ids l2ids p.cpu))
    set_l2 l2id ca

  unfoldable pub get_l2 : ℕ → ℕ → ℕ → Action S (List L2ca)
  get_l2 l2id zero i = pure []
  get_l2 l2id (suc n) i = do
    schmt ← load i
    ca ← lift (entry_at l2id schmt.l2ca)
    rest ← get_l2 l2id n (i + 1)
    pure (ca ∷ rest)

  unfoldable pub os_l2ca_get : Bool → ℕ → ℕ → Action S (List L2ca)
  os_l2ca_get l2ids l2id max_num_ca = do
    l2ca_num ← lift (or_resource (l2ca_get_cos_num p.interface p.cap))
    count ← lift (get_grps_num p.interface p.cap)
    fail_if (ltb max_num_ca count) Retval.param
    lift (check_id Retval.param l2id (get_l2ids l2ids p.cpu))
    get_l2 l2id count 0

  -- One request: the tables written, and the entry of `actual` where the caller passed a table, read
  -- back from the file into the tables written.
  unfoldable pub set_rate : ℕ → ℕ → Bool → Mba → Action S (List Mba)
  set_rate socket step wanted r = do
    schmt ← load r.class_id
    old ← lift (entry_at socket schmt.mba)
    let schmt' = record schmt {
      mba = set socket (record r { mb_rate = rounded step r.mb_rate }) schmt.mba;
    }
    schemata_write fs r.class_id schmt'
    elim wanted [
      | false ↦ pure []
      | true ↦ schemata_read fs r.class_id schmt' >>= λ now.
          lift (entry_at socket now.mba) >>= λ m. pure (m ∷ [])
    ]

  unfoldable pub set_rates : ℕ → ℕ → Bool → List Mba → Action S (List Mba)
  set_rates socket step wanted [] = pure []
  set_rates socket step wanted (r ∷ rs) = do
    actual ← set_rate socket step wanted r
    rest ← set_rates socket step wanted rs
    pure (elim actual [ [] ↦ rest | m ∷ ms ↦ m ∷ rest ])

  unfoldable pub os_mba_set : Bool → ℕ → List Mba → Bool → Action S (List Mba)
  os_mba_set sockets socket requested wanted = do
    mba_cap ← lift (or_resource (as_mba (get_type p.interface p.cap mba_type)))
    num_grps ← lift (get_grps_num p.interface p.cap)
    fail_if (ltb num_grps (length requested)) Retval.param
    fail_if (mba_out_of_range num_grps requested) Retval.param
    lift (check_id Retval.error socket (get_sockets sockets p.cpu))
    set_rates socket mba_cap.throttle_step wanted requested

  unfoldable pub get_rates : ℕ → ℕ → ℕ → Action S (List Mba)
  get_rates socket zero i = pure []
  get_rates socket (suc n) i = do
    schmt ← load i
    m ← lift (entry_at socket schmt.mba)
    rest ← get_rates socket n (i + 1)
    pure (m ∷ rest)

  unfoldable pub os_mba_get : Bool → ℕ → ℕ → Action S (List Mba)
  os_mba_get sockets socket max_num_cos = do
    mba_cap ← lift (or_resource (as_mba (get_type p.interface p.cap mba_type)))
    count ← lift (get_grps_num p.interface p.cap)
    fail_if (ltb max_num_cos count) Retval.error
    lift (check_id Retval.error socket (get_sockets sockets p.cpu))
    get_rates socket count 0
