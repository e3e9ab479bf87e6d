-- ===== src/Mon/Rmid/Limit.antt =====
-- The number of RMIDs that `rmid_alloc` may choose from: the least limit of the events of the mask.
use multi_resource_isolation.Prelude.{
  ℕ, ◌≤◌, ◌<◌, ◌≡◌, sym, subst, true, ◌&&◌, ltb, bit_or, arith, if◌then◌else◌, List, [], ◌∷◌, inl,
  inr, All,
}
use multi_resource_isolation.Types.{ok, err, Result-cases}
use multi_resource_isolation.Cap.{Monitor, CapMon, mon_type, get_type, as_mon}
use multi_resource_isolation.Alloc.{Platform}
use multi_resource_isolation.Mon.{event_value, has}
use multi_resource_isolation.Mon.Rmid.{scan_events, checked_limit, rmid_limit}

-- What a round of the scan makes of the mask and of the limit.
abbrev next_found : ℕ → Monitor → ℕ → ℕ
next_found event e found =
    if has event (event_value e.type) then bit_or found (event_value e.type) else found

abbrev next_limit : ℕ → Monitor → ℕ → ℕ
next_limit event e limit =
    if has event (event_value e.type) && ltb e.max_rmid limit then e.max_rmid else limit

next_limit-le :
    (event : ℕ) (e : Monitor) (limit : ℕ)
    → (next_limit event e limit ≤ limit)
      × (has event (event_value e.type) ≡ true → next_limit event e limit ≤ e.max_rmid)
next_limit-le event e limit = (ground arith, λ h. ground arith)

-- The limit never grows, and ends at or below that of every event of the mask.
scan_events-le :
    (event : ℕ) (es : List Monitor) (found limit : ℕ) → (scan_events event es found limit).1 ≤ limit
unfolding scan_events
scan_events-le event [] found limit = omega arith
scan_events-le event (e ∷ es) found limit = omega (
  arith,
  scan_events-le event es (next_found event e found) (next_limit event e limit),
  (next_limit-le event e limit).0,
)

abbrev pub Allows : ℕ → ℕ → List Monitor → Type 0
Allows event limit = All (λ e. has event (event_value e.type) ≡ true → limit ≤ e.max_rmid)

scan_events-Allows :
    (event : ℕ) (es : List Monitor) (found limit : ℕ)
    → Allows event (scan_events event es found limit).1 es
unfolding scan_events
scan_events-Allows event [] found limit = tt
scan_events-Allows event (e ∷ es) found limit = (
  λ h. omega (
    arith,
    scan_events-le event es (next_found event e found) (next_limit event e limit),
    (next_limit-le event e limit).1 h,
  ),
  scan_events-Allows event es (next_found event e found) (next_limit event e limit),
)

checked_limit_ok :
    (event : ℕ) (x : ℕ × ℕ) {n : ℕ} → checked_limit event x ≡ ok n → (n ≡ x.1) × (0 < n)
checked_limit_ok event x h = (ground arith, ground arith)

-- The number of RMIDs for a mask is not 0, and at most the limit of the package and of each event.
pub rmid_limit_lem :
    (p : Platform) (rmid_max event : ℕ) {n : ℕ}
    → rmid_limit p rmid_max event ≡ ok n
    → (mon : CapMon) × (as_mon (get_type p.interface p.cap mon_type) ≡ ok mon)
      × (0 < n)
      × (n ≤ rmid_max)
      × Allows event n mon.events
unfolding rmid_limit
rmid_limit_lem p rmid_max event {n} h =
    elim (Result-cases (as_mon (get_type p.interface p.cap mon_type))) [
      | inl (mon, e) ↦
          let scan = scan_events event mon.events 0 rmid_max in
          let found : checked_limit event scan ≡ ok n = rw (e, rmid_limit) at h in
          let (same, pos) = checked_limit_ok event scan found in
          (
            mon,
            e,
            pos,
            omega (arith, same, scan_events-le event mon.events 0 rmid_max),
            subst (λ k. Allows event k mon.events) (sym same)
                (scan_events-Allows event mon.events 0 rmid_max),
          )
      | inr (x, e) ↦ absurd (let bad : err x ≡ ok n = rw (e, rmid_limit) at h in cc)
    ]
