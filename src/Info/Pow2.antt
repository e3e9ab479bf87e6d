-- ===== src/Info/Pow2.antt =====
-- `nearest_pow2`: the number of bits that it returns.
use multi_resource_isolation.Prelude.{
  ℕ, zero, suc, ◌+◌, ◌*◌, ◌^◌, ◌≤◌, ◌<◌, ◌≡◌, sym, subst, false, if◌then◌else◌, arith, Bool-cases,
  inl, inr, leb, ltb, u32, ap, refl,
}
use native.Mathlib.Nat.{pow-suc}
use native.Mathlib.Numerals.{add-one}
use multi_resource_isolation.Info.{doubling, nearest_pow2}

next_pow : (p r : ℕ) → r ≡ 2 ^ p → r * 2 ≡ 2 ^ (p + 1)
next_pow p r e = rw (add-one p) (omega (arith, pow-suc 2 p))

-- The least power of two that is not below `n`, as a number of bits.
abbrev Bits : ℕ → ℕ → Type 0
Bits n q = (n ≤ 2 ^ q) × (2 ^ q < 2 * n)

-- With rounds enough to reach `n` from the power `r`, the loop ends at the least power that is not
-- below `n`.
doubling_lem :
    (rounds n r p : ℕ)
    → r ≡ 2 ^ p
    → n ≤ r * 2 ^ rounds
    → n ≤ 2 ^ 31
    → r < 2 * n
    → Bits n (doubling rounds n r p)
unfolding doubling
doubling_lem zero n r p e h small below = (omega (arith, e), omega (arith, e))
doubling_lem (suc rounds) n r p e h small below = elim (Bool-cases (leb n r)) [
  | inl reached ↦ rw reached (let le : n ≤ r = ground arith in (omega (arith, e), omega (arith, e)))
  | inr short ↦
      let lt : r < n = ground arith in
      let word : u32 (r * 2) ≡ r * 2 = omega arith in
      rw short (
        rw word (
          doubling_lem rounds n (r * 2) (p + 1) (next_pow p r e)
            (omega (arith, ap (λ (t : ℕ). r * t) (pow-suc 2 rounds))) small (omega arith)))
]

-- For 2 ≤ n ≤ 2^31 the result is the number of bits of the least power of two that is not below n.
nearest_pow2_lem : (n : ℕ) → 2 ≤ n → n ≤ 2 ^ 31 → Bits n (nearest_pow2 n)
unfolding nearest_pow2
nearest_pow2_lem n low high =
    let large : ltb n 2 ≡ false = ground arith in
    subst (Bits n) (sym (ap (λ b. if b then n else doubling 32 n 1 0) large))
      (doubling_lem 32 n 1 0 refl (omega arith) high (omega arith))

-- For 1 the result is 1, although one bit more than the 0 that its power of two needs.
nearest_pow2_one : nearest_pow2 1 ≡ 1
unfolding nearest_pow2
nearest_pow2_one = refl
