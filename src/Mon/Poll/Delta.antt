-- ===== src/Mon/Poll/Delta.antt =====
-- `get_delta` on a counter of 24 bits, and what `mon_read` returns.
use multi_resource_isolation.Prelude.{
  ℕ, zero, suc, ◌+◌, ◌%◌, ◌^◌, ◌<◌, ◌≡◌, refl, Bool, ap, ◌∙◌, true, false, bit_and-ones, arith,
  some, none, Bool-cases, inl, inr, ltb,
}
use multi_resource_isolation.Types.{Retval, Result, ok, err, Action, fail_if, pure, ◌>>=◌, ◌>>◌}
use multi_resource_isolation.Types.Bind.{ok_next, bind_of_ok, ok_same, open_guard}
use multi_resource_isolation.Msr.{Msr, read_msr, write_msr}
use multi_resource_isolation.Mon.Poll.{
  get_delta, qmc_error, qmc_unavailable, qmc_data, msr_mon_qmc, msr_mon_evtsel, selection, read_qmc,
  mon_read,
}

-- For a counter of 24 bits that has moved on by fewer than 2^24, the difference is how far it has,
-- also where it has wrapped.
pub get_delta_lem :
    (old moved : ℕ) → old < 2 ^ 24 → moved < 2 ^ 24 → get_delta old ((old + moved) % 2 ^ 24) ≡ moved
unfolding get_delta
get_delta_lem old moved low short = elim (Bool-cases (ltb ((old + moved) % 2 ^ 24) old)) [
  | inl wrapped ↦ rw wrapped (ground arith)
  | inr straight ↦ rw straight (ground arith)
]

module _ (m : Msr) where
  -- A value that `mon_read` returns fits 62 bits.
  mon_read_bounds :
      (lcore rmid event : ℕ) (s : m.State) {v : ℕ}
      → (mon_read m lcore rmid event s).0 ≡ ok v
      → v < 2 ^ 62
  unfolding mon_read
  mon_read_bounds lcore rmid event s h =
      let value = λ (x : ℕ). pure {S = m.State} (qmc_data x) in
      let (u, selected, h1) =
        ok_next (write_msr m lcore msr_mon_evtsel (selection rmid event))
          (λ u. read_qmc m 2 lcore >>= value) s h in
      let s' = (write_msr m lcore msr_mon_evtsel (selection rmid event) s).1 in
      let (x, read, h2) = ok_next (read_qmc m 2 lcore) value s' h1 in
      let same = ok_same h2 in omega (arith, bit_and-ones 62 x, same)

  module _ (lcore v : ℕ) (s s' : m.State) (e : m.read lcore msr_mon_qmc s ≡ (some v, s'))
      (fine : qmc_error v ≡ false) where
    value_read : (read_msr m lcore msr_mon_qmc s).0 ≡ ok v
    value_read = ap (λ t. elim t.0 [ some x ↦ ok x | none ↦ err Retval.error ]) e

    -- A value that is unavailable is read again, where a round is left.
    read_again :
        (more : ℕ)
        → qmc_unavailable v ≡ true
        → read_qmc m (suc more) lcore s ≡ read_qmc m more lcore s'
    unfolding read_qmc
    read_again more away =
        bind_of_ok (read_msr m lcore msr_mon_qmc) (after_read more) s value_read
        ∙ stepped (qmc_error v) (qmc_unavailable v) (read_msr m lcore msr_mon_qmc s).1 fine away
        ∙ ap (λ t. read_qmc m more lcore t.1) e
      where
        stepped :
            (b c : Bool) (t : m.State)
            → b ≡ false
            → c ≡ true
            → (fail_if b Retval.error >> elim c [ true ↦ read_qmc m more lcore | false ↦ pure v ]) t
              ≡ read_qmc m more lcore t
        stepped true c t f u = cc
        stepped false true t f u = refl
        stepped false false t f u = cc

        after_read : ℕ → ℕ → Action m.State ℕ
        after_read n val =
            fail_if (qmc_error val) Retval.error
            >> elim (qmc_unavailable val) [ true ↦ read_qmc m n lcore | false ↦ pure val ]

    -- The last round takes any value.
    read_last : read_qmc m zero lcore s ≡ (let t : Result ℕ × m.State = (ok v, s') in t)
    unfolding read_qmc
    read_last =
        bind_of_ok (read_msr m lcore msr_mon_qmc)
          (λ val. fail_if (qmc_error val) Retval.error >> pure val) s value_read
        ∙ open_guard (qmc_error v) Retval.error (λ u. pure v) (read_msr m lcore msr_mon_qmc s).1
            fine
        ∙ ap (λ t. let u : Result ℕ × m.State = (ok v, t.1) in u) e

  module _ (lcore rmid event : ℕ) (x y z : ℕ) (s0 s s1 s2 s3 : m.State)
      (selected : m.write lcore msr_mon_evtsel (selection rmid event) s0 ≡ (true, s))
      (first : m.read lcore msr_mon_qmc s ≡ (some x, s1))
      (second : m.read lcore msr_mon_qmc s1 ≡ (some y, s2))
      (third : m.read lcore msr_mon_qmc s2 ≡ (some z, s3)) where
    -- Where the event is selected, three reads give values without the error bit, and the first two
    -- say that the value is unavailable, `mon_read` makes all three and succeeds with the data bits of
    -- the third, whether that is available or not.
    pub mon_read-unavailable :
        qmc_error x ≡ false
        → qmc_error y ≡ false
        → qmc_error z ≡ false
        → qmc_unavailable x ≡ true
        → qmc_unavailable y ≡ true
        → mon_read m lcore rmid event s0 ≡ (let t : Result ℕ × m.State = (ok (z % 2 ^ 62), s3) in t)
    unfolding mon_read read_qmc
    mon_read-unavailable fx fy fz ux uy =
        let value = λ (v : ℕ). pure {S = m.State} (qmc_data v) in
        let read =
          read_again lcore x s s1 first fx 1 ux
          ∙ read_again lcore y s1 s2 second fy 0 uy
          ∙ read_last lcore z s2 s3 third fz in
        bind_of_ok (write_msr m lcore msr_mon_evtsel (selection rmid event))
          (λ u. read_qmc m 2 lcore >>= value) s0
          (ap (λ t. elim t.0 [ true ↦ ok tt | false ↦ err Retval.error ]) selected)
        ∙ ap (λ t. (read_qmc m 2 lcore >>= value) t.1) selected
        ∙ bind_of_ok (read_qmc m 2 lcore) value s (ap (λ t. t.0) read)
        ∙ ap (λ t. let u : Result ℕ × m.State = (ok (qmc_data z), t.1) in u) read
        ∙ ap (λ v. let u : Result ℕ × m.State = (ok v, s3) in u) (bit_and-ones 62 z)
