-- ===== src/Mask/Run.antt =====
-- `is_contiguous` accepts exactly the masks that are one unbroken run of ones.
use native.Mathlib.Nat.{pow-suc, one-le-pow}
use native.Mathlib.Decide.{ℕ_discrete}
use multi_resource_isolation.Prelude.{
  ℕ, zero, suc, ◌+◌, ◌-◌, ◌*◌, ◌/◌, ◌%◌, ◌^◌, ◌≤◌, ◌<◌, ◌≡◌, refl, ap, ◌∙◌, ◌↔◌, true, arith,
  bit_and-ones,
}
use multi_resource_isolation.Mask.{skip_zeros, skip_ones, is_contiguous}

-- `length + 1` ones from bit `start` on.
abbrev pub run : ℕ → ℕ → ℕ
run start length = (2 ^ suc length - 1) * 2 ^ start

scale : (x k : ℕ) → x * 2 ^ suc k ≡ 2 * (x * 2 ^ k)
scale x k = omega (arith, ap (λ (t : ℕ). x * t) (pow-suc 2 k))

skip_zeros_even : (f m : ℕ) → m % 2 ≡ 0 → skip_zeros (suc f) m ≡ skip_zeros f (m / 2)
unfolding skip_zeros
skip_zeros_even f m e = ground (arith, bit_and-ones 1 m)

skip_zeros_odd : (f m : ℕ) → m % 2 ≡ 1 → skip_zeros f m ≡ m
unfolding skip_zeros
skip_zeros_odd zero m e = refl
skip_zeros_odd (suc f) m e = ground (arith, bit_and-ones 1 m)

skip_ones_odd : (f m : ℕ) → m % 2 ≡ 1 → skip_ones (suc f) m ≡ skip_ones f (m / 2)
unfolding skip_ones
skip_ones_odd f m e = ground (arith, bit_and-ones 1 m)

skip_ones_even : (f m : ℕ) → m % 2 ≡ 0 → skip_ones f m ≡ m
unfolding skip_ones
skip_ones_even zero m e = refl
skip_ones_even (suc f) m e = ground (arith, bit_and-ones 1 m)

-- The first loop divides the zeros out of a mask that is not zero.
skip_zeros_lem :
    (f m : ℕ)
    → 0 < m
    → m < 2 ^ f
    → (k : ℕ) × (m ≡ skip_zeros f m * 2 ^ k) × (skip_zeros f m % 2 ≡ 1)
skip_zeros_lem zero m p h = absurd (omega arith)
skip_zeros_lem (suc f) m p h = elim (ℕ_discrete (m % 2) 0) [
  | yes even ↦
      let (k, e, odd) = skip_zeros_lem f (m / 2) (omega arith) (omega (arith, pow-suc 2 f)) in
      rw (skip_zeros_even f m even) (suc k, omega (arith, scale (skip_zeros f (m / 2)) k), odd)
  | no odd ↦ rw (skip_zeros_odd (suc f) m (omega arith)) (0, omega arith, omega arith)
]

-- The second loop divides the ones out.
skip_ones_lem :
    (f m : ℕ)
    → m < 2 ^ f
    → (k : ℕ) × (m ≡ skip_ones f m * 2 ^ k + (2 ^ k - 1)) × (skip_ones f m % 2 ≡ 0)
skip_ones_lem zero m h = rw (skip_ones_even zero m (omega arith)) (0, omega arith, omega arith)
skip_ones_lem (suc f) m h = elim (ℕ_discrete (m % 2) 0) [
  | yes even ↦ rw (skip_ones_even (suc f) m even) (0, omega arith, even)
  | no odd ↦
      let (k, e, even) = skip_ones_lem f (m / 2) (omega (arith, pow-suc 2 f)) in
      rw (skip_ones_odd f m (omega arith))
        (suc k, omega (arith, scale (skip_ones f (m / 2)) k, one-le-pow k 2, pow-suc 2 k), even)
]

-- Zeros below an odd number are skipped where the fuel covers them.
skip_zeros_of_shift : (k f x : ℕ) → k ≤ f → x % 2 ≡ 1 → skip_zeros f (x * 2 ^ k) ≡ x
skip_zeros_of_shift zero f x h odd = rw (skip_zeros_odd f (x * 2 ^ 0) (omega arith)) (omega arith)
skip_zeros_of_shift (suc k) zero x h odd = absurd (omega arith)
skip_zeros_of_shift (suc k) (suc f) x h odd =
    skip_zeros_even f (x * 2 ^ suc k) (omega (arith, scale x k))
    ∙ ap (skip_zeros f) (omega (arith, scale x k))
    ∙ skip_zeros_of_shift k f x (omega arith) odd

skip_ones_of_ones : (k f : ℕ) → k ≤ f → skip_ones f (2 ^ k - 1) ≡ 0
skip_ones_of_ones zero f h = skip_ones_even f 0 refl
skip_ones_of_ones (suc k) zero h = absurd (omega arith)
skip_ones_of_ones (suc k) (suc f) h =
    skip_ones_odd f (2 ^ suc k - 1) (omega (arith, pow-suc 2 k, one-le-pow k 2))
    ∙ ap (skip_ones f) (omega (arith, pow-suc 2 k, one-le-pow k 2))
    ∙ skip_ones_of_ones k f (omega arith)

pow_strict : (a b : ℕ) → 2 ^ a < 2 ^ b → a < b
pow_strict a zero h = absurd (omega (arith, one-le-pow a 2))
pow_strict zero (suc b) h = omega arith
pow_strict (suc a) (suc b) h =
    omega (arith, pow_strict a b (omega (arith, pow-suc 2 a, pow-suc 2 b)))

product_ge : (u v : ℕ) → 1 ≤ u → 1 ≤ v → (u ≤ u * v) × (v ≤ u * v)
product_ge u v p q = grind arith

ones_ge : (b : ℕ) → 2 ^ b ≤ 2 ^ suc b - 1
ones_ge b = omega (arith, pow-suc 2 b, one-le-pow b 2)

-- A run in a 64-bit word starts below bit 64 and is no longer than 64.
run_fits : (a b : ℕ) → run a b < 2 ^ 64 → (a < 64) × (b < 64)
run_fits a b h =
    let ge =
      product_ge (2 ^ suc b - 1) (2 ^ a) (omega (arith, ones_ge b, one-le-pow b 2))
        (one-le-pow a 2 (omega arith)) in
    (pow_strict a 64 (omega (arith, ge.1)), pow_strict b 64 (omega (arith, ge.0, ones_ge b)))

is_contiguous-run : (a b : ℕ) → run a b < 2 ^ 64 → is_contiguous (run a b) ≡ true
unfolding is_contiguous
is_contiguous-run a b h =
    let fits = run_fits a b h in
    ground (
      arith,
      skip_zeros_of_shift a 64 (2 ^ suc b - 1) (omega (arith, fits.0))
          (omega (arith, pow-suc 2 b, one-le-pow b 2)),
      skip_ones_of_ones (suc b) 64 (omega (arith, fits.1)),
      product_ge (2 ^ suc b - 1) (2 ^ a) (omega (arith, ones_ge b, one-le-pow b 2))
          (one-le-pow a 2 (omega arith)),
      ones_ge b,
      one-le-pow b 2,
    )

-- What is left of the loops where the check succeeds.
run_of_loops : (m x j k : ℕ) → m ≡ x * 2 ^ j → x ≡ 2 ^ k - 1 → x % 2 ≡ 1 → (b : ℕ) × (m ≡ run j b)
run_of_loops m x j zero e d odd = absurd (omega arith)
run_of_loops m x j (suc k) e d odd = (k, e ∙ ap (λ (t : ℕ). t * 2 ^ j) d)

loops_of_contiguous :
    (m : ℕ) → is_contiguous m ≡ true → (0 < m) × (skip_ones 64 (skip_zeros 64 m) ≡ 0)
unfolding is_contiguous
loops_of_contiguous m c = ground arith

run_of_contiguous :
    (m : ℕ) → m < 2 ^ 64 → is_contiguous m ≡ true → (a : ℕ) × (b : ℕ) × (m ≡ run a b)
run_of_contiguous m h c =
    let (pos, done) = loops_of_contiguous m c in
    let (j, e, odd) = skip_zeros_lem 64 m pos h in
    let x = skip_zeros 64 m in
    let small = product_ge x (2 ^ j) (omega (arith, odd)) (one-le-pow j 2 (omega arith)) in
    let (k, d, _) = skip_ones_lem 64 x (omega (arith, small.0, e)) in
    let (b, r) =
      run_of_loops m x j k e (d ∙ ap (λ (t : ℕ). t * 2 ^ k + (2 ^ k - 1)) done ∙ omega arith) odd in
    (j, b, r)

-- For a 64-bit mask the check succeeds exactly when the mask is a run of one or more ones
-- with zeros on both sides; so both loops end within the 64 rounds given.
pub is_contiguous_iff :
    (m : ℕ) → m < 2 ^ 64 → (is_contiguous m ≡ true) ↔ ((a : ℕ) × (b : ℕ) × (m ≡ run a b))
is_contiguous_iff m h =
    (run_of_contiguous m h, λ (a, b, e). rw e (is_contiguous-run a b (omega (arith, e))))
