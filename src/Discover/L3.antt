-- ===== src/Discover/L3.antt =====
-- What `cdp_is_enabled` tells from the registers of the sockets.
use multi_resource_isolation.Prelude.{
  All-implies, ℕ, ◌+◌, ◌<◌, ◌≤◌, ◌≡◌, refl, ap, ◌∙◌, Bool, true, false, ◌&&◌, ltb, if◌then◌else◌,
  arith, List, [], ◌∷◌, All, Option, none, some, Bool-cases, inl, inr, subst,
}
use multi_resource_isolation.Types.{ok, err, Retval, lift, ◌>>=◌}
use multi_resource_isolation.Types.Bind.{ok_next, ok_same}
use multi_resource_isolation.Msr.{Msr, Registers, read_msr}
use multi_resource_isolation.Msr.Access.{read_msr_value}
use multi_resource_isolation.Cpu.{Cpuinfo, get_sockets, get_one_core}
use multi_resource_isolation.Alloc.{msr_l3_qos_cfg}
use multi_resource_isolation.Discover.{
  bit_set, counted, consistent, list_or_resource, count_cdp, cdp_is_enabled,
}

-- How many sockets have shown a value of the bit.
abbrev tally : Bool → ℕ × ℕ → ℕ
tally true counts = counts.0
tally false counts = counts.1

counted_more : (reg : ℕ) (counts : ℕ × ℕ) (b : Bool) → tally b counts ≤ tally b (counted reg counts)
counted_more reg counts b = by_bits (bit_set 0 reg) b
  where
    by_bits :
        (x b : Bool)
        → tally b counts
          ≤ tally b (if x then (counts.0 + 1, counts.1) else (counts.0, counts.1 + 1))
    by_bits true true = omega arith
    by_bits true false = omega arith
    by_bits false true = omega arith
    by_bits false false = omega arith

counted_here : (reg : ℕ) (counts : ℕ × ℕ) → 0 < tally (bit_set 0 reg) (counted reg counts)
counted_here reg counts = by_bit (bit_set 0 reg)
  where
    by_bit :
        (x : Bool) → 0 < tally x (if x then (counts.0 + 1, counts.1) else (counts.0, counts.1 + 1))
    by_bit true = omega arith
    by_bit false = omega arith

-- Where the counts agree, each value that was shown is the answer.
consistent_lem :
    (counts : ℕ × ℕ) {on : Bool}
    → consistent counts ≡ ok on
    → (b : Bool) → 0 < tally b counts
    → b ≡ on
consistent_lem (enabled_num, disabled_num) {on} h b positive =
    elim (Bool-cases (ltb 0 disabled_num && ltb 0 enabled_num)) [
      | inl mixed ↦ absurd (let bad : err Retval.error ≡ ok on = rw mixed at h in cc)
      | inr pure_bits ↦ by_value b positive pure_bits ∙ ok_same (rw pure_bits at h)
    ]
  where
    by_value :
        (b : Bool)
        → 0 < tally b (enabled_num, disabled_num)
        → ltb 0 disabled_num && ltb 0 enabled_num ≡ false
        → b ≡ ltb 0 enabled_num
    by_value true p f = ground arith
    by_value false p f = ground arith

module _ (m : Msr) (g : Registers m) (cpu : Cpuinfo) (s : m.State) where
  -- The bit of a socket, as the core that is read through shows it.
  abbrev pub Shows : (Bool → Type 0) → ℕ → Type 0
  Shows P socket =
      (core : ℕ) × (get_one_core cpu socket ≡ ok core)
      × P (bit_set 0 (g.peek s core msr_l3_qos_cfg))

  abbrev Counted : ℕ × ℕ → ℕ → Type 0
  Counted counts socket = Shows (λ b. 0 < tally b counts) socket

  count_cdp_lem :
      (sockets : List ℕ) (counts : ℕ × ℕ) (t : m.State) {out : ℕ × ℕ}
      → ((c : ℕ) → g.peek t c msr_l3_qos_cfg ≡ g.peek s c msr_l3_qos_cfg)
      → (count_cdp m cpu sockets counts t).0 ≡ ok out
      → ((b : Bool) → tally b counts ≤ tally b out) × All (Counted out) sockets
  unfolding count_cdp
  count_cdp_lem [] counts t {out} same h =
      (λ b. let e = ap (λ c. tally b c) (ok_same h) in omega (arith, e), tt)
  count_cdp_lem (socket ∷ sockets) counts t {out} same h =
      let after = λ (reg : ℕ). count_cdp m cpu sockets (counted reg counts) in
      let next = λ (core : ℕ). read_msr m core msr_l3_qos_cfg >>= after in
      let (core, found, h1) = ok_next (lift (get_one_core cpu socket)) next t h in
      let (reg, read, h2) = ok_next (read_msr m core msr_l3_qos_cfg) after t h1 in
      let t' = (read_msr m core msr_l3_qos_cfg t).1 in
      let value = read_msr_value m g core msr_l3_qos_cfg reg t read ∙ same core in
      let (more, rest) =
        count_cdp_lem sockets (counted reg counts) t' {out = out}
          (λ c. g.read_keeps core msr_l3_qos_cfg t c msr_l3_qos_cfg ∙ same c) h2 in
      let bit = bit_set 0 reg in
      let here : 0 < tally bit out =
        (let a = counted_here reg counts in let b = more bit in omega (arith, a, b)) in
      (
        λ b. let x = counted_more reg counts b in let y = more b in omega (arith, x, y),
        ((core, found, subst (λ v. 0 < tally (bit_set 0 v) out) value here), rest),
      )

  -- An answer of `cdp_is_enabled` is bit 0 of the L3 QoS register of every socket; where the bits
  -- of two sockets differ there is no answer.
  pub cdp_is_enabled_lem :
      (granted : Bool) {on : Bool}
      → (cdp_is_enabled m granted cpu s).0 ≡ ok on
      → (sockets : List ℕ) × (get_sockets granted cpu ≡ some sockets)
        × All (Shows (λ b. b ≡ on)) sockets
  unfolding cdp_is_enabled
  cdp_is_enabled_lem granted {on} h =
      let end = λ (counts : ℕ × ℕ). lift {S = m.State} (consistent counts) in
      let loop = λ (list : List ℕ). count_cdp m cpu list (0, 0) >>= end in
      let (list, made, h1) = ok_next (lift (list_or_resource (get_sockets granted cpu))) loop s h in
      let (counts, counting, agree) = ok_next (count_cdp m cpu list (0, 0)) end s h1 in
      let (more, all) = count_cdp_lem list (0, 0) s {out = counts} (λ c. refl) counting in
      (
        list,
        there (get_sockets granted cpu) made,
        All-implies (Counted counts) (Shows (λ b. b ≡ on)) list
            (λ socket shown.
              let (core, found, positive) = shown in
              (core, found, consistent_lem counts {on = on} agree _ positive))
            all,
      )
    where
      there : (x : Option (List ℕ)) {list : List ℕ} → list_or_resource x ≡ ok list → x ≡ some list
      there none e = cc
      there (some xs) e = cc
