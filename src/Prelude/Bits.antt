-- ===== src/Prelude/Bits.antt =====
-- `bit_and` with a low mask and `bit_or` of fields that do not overlap, as arithmetic.
use Prim.Native.Nat.{ℕ, zero, suc, ◌+◌, ◌-◌, ◌*◌, ◌/◌, ◌%◌, ◌^◌, ◌≤◌, ◌<◌, min, max}
use Prim.Native.Nat.{bit_and, bit_or, digits, bit_and-bitwise, bit_or-bitwise}
use mathlib.Core.Path.{◌≡◌, refl, sym, ap, ◌∙◌}
use native.Mathlib.Nat.{pow-suc, one-le-pow, mul_comm, div-div-eq-div-mul}
use multi_resource_isolation.Prelude.Tests.{◌==◌, ltb, if◌then◌else◌}
use native.Mathlib.Omega.{arith}

-- The recursion on digits that a native operation stands for takes any fuel that is enough.
module _ (z : ℕ → ℕ) (f : ℕ → ℕ → ℕ) where
  enough : (n m a b : ℕ) → a ≤ n → a ≤ m → digits z f n a b ≡ digits z f m a b
  enough zero zero a b p q = refl
  enough zero (suc m) zero b p q = refl
  enough zero (suc m) (suc a) b p q = absurd (omega arith)
  enough (suc n) zero zero b p q = refl
  enough (suc n) zero (suc a) b p q = absurd (omega arith)
  enough (suc n) (suc m) zero b p q = refl
  enough (suc n) (suc m) (suc a) b p q =
      rw (enough n m (suc a / 2) (b / 2) (omega arith) (omega arith))

zero-bit_and : (b : ℕ) → bit_and 0 b ≡ 0
zero-bit_and b = bit_and-bitwise 0 b

pub zero-bit_or : (b : ℕ) → bit_or 0 b ≡ b
zero-bit_or b = bit_or-bitwise 0 b

-- The lowest digit split off.
pub bit_and-low : (a b : ℕ) → bit_and a b ≡ bit_and (a / 2) (b / 2) * 2 + min (a % 2) (b % 2)
bit_and-low zero b = omega (arith, zero-bit_and b, zero-bit_and (b / 2))
bit_and-low (suc a) b = omega (
  arith,
  bit_and-bitwise (suc a) b,
  bit_and-bitwise (suc a / 2) (b / 2),
  enough (λ y. 0) min a (suc a / 2) (suc a / 2) (b / 2) (omega arith) (omega arith),
)

pub bit_or-low : (a b : ℕ) → bit_or a b ≡ bit_or (a / 2) (b / 2) * 2 + max (a % 2) (b % 2)
bit_or-low zero b = omega (arith, zero-bit_or b, zero-bit_or (b / 2))
bit_or-low (suc a) b = omega (
  arith,
  bit_or-bitwise (suc a) b,
  bit_or-bitwise (suc a / 2) (b / 2),
  enough (λ y. y) max a (suc a / 2) (suc a / 2) (b / 2) (omega arith) (omega arith),
)

bit_and-zero_below : (n a : ℕ) → a ≤ n → bit_and a 0 ≡ 0
bit_and-zero_below n zero h = refl
bit_and-zero_below zero (suc a) h = absurd (omega arith)
bit_and-zero_below (suc n) (suc a) h =
    omega (arith, bit_and-low (suc a) 0, bit_and-zero_below n (suc a / 2) (omega arith))

bit_or-zero_below : (n a : ℕ) → a ≤ n → bit_or a 0 ≡ a
bit_or-zero_below n zero h = refl
bit_or-zero_below zero (suc a) h = absurd (omega arith)
bit_or-zero_below (suc n) (suc a) h =
    omega (arith, bit_or-low (suc a) 0, bit_or-zero_below n (suc a / 2) (omega arith))

pub bit_or-zero : (a : ℕ) → bit_or a 0 ≡ a
bit_or-zero a = bit_or-zero_below a a (omega arith)

pub double_pow : (q k : ℕ) → q * 2 ^ suc k ≡ 2 * (q * 2 ^ k)
double_pow q k = omega (arith, ap (λ (t : ℕ). q * t) (pow-suc 2 k))

bit_and-fields : (k q r : ℕ) → r < 2 ^ k → bit_and (q * 2 ^ k + r) (2 ^ k - 1) ≡ r
bit_and-fields zero q r h =
    omega (arith, bit_and-zero_below (q * 2 ^ 0 + r) (q * 2 ^ 0 + r) (omega arith))
bit_and-fields (suc k) q r h = ground (
  arith,
  bit_and-low (q * 2 ^ suc k + r) (2 ^ suc k - 1),
  double_pow q k,
  pow-suc 2 k,
  one-le-pow k 2,
  bit_and-fields k q (r / 2) (omega (arith, pow-suc 2 k)),
)

-- `a & (2 ^ k - 1)` is the remainder by `2 ^ k`.
pub bit_and-ones : (k a : ℕ) → bit_and a (2 ^ k - 1) ≡ a % 2 ^ k
bit_and-ones k a = ground (arith, one-le-pow k 2, bit_and-fields k (a / 2 ^ k) (a % 2 ^ k))

-- `r | (q << k)` is a sum when `r` fits below bit `k`.
pub bit_or-fields : (k q r : ℕ) → r < 2 ^ k → bit_or r (q * 2 ^ k) ≡ q * 2 ^ k + r
bit_or-fields zero q r h =
    let e : r ≡ 0 = omega arith in rw e (omega (arith, zero-bit_or (q * 2 ^ 0)))
bit_or-fields (suc k) q r h = ground (
  arith,
  bit_or-low r (q * 2 ^ suc k),
  double_pow q k,
  bit_or-fields k q (r / 2) (omega (arith, pow-suc 2 k)),
)

-- `a | 1` sets the lowest bit, and `a & ~1` clears it.
pub bit_or-one : (a : ℕ) → bit_or a 1 ≡ a / 2 * 2 + 1
bit_or-one a = omega (arith, bit_or-low a 1, bit_or-zero (a / 2))

pub bit_and-clear_low : (a : ℕ) → a < 2 ^ 64 → bit_and a (2 ^ 64 - 2) ≡ a / 2 * 2
bit_and-clear_low a h = omega (arith, bit_and-low a (2 ^ 64 - 2), bit_and-ones 63 (a / 2))

-- Bit `j` of a number.
abbrev pub bit : ℕ → ℕ → ℕ
bit j x = x / 2 ^ j % 2

bit-suc : (j x : ℕ) → bit (suc j) x ≡ bit j (x / 2)
bit-suc j x = rw (pow-suc 2 j, mul_comm (2 ^ j) 2, sym (div-div-eq-div-mul x 2 (2 ^ j))) refl

halves : (a b : ℕ) → bit_or a b / 2 ≡ bit_or (a / 2) (b / 2)
halves a b = omega (arith, bit_or-low a b)

pub bit-bit_or : (j a b : ℕ) → bit j (bit_or a b) ≡ max (bit j a) (bit j b)
bit-bit_or zero a b = omega (arith, bit_or-low a b)
bit-bit_or (suc j) a b = omega (
  arith,
  bit-suc j (bit_or a b),
  bit-suc j a,
  bit-suc j b,
  bit-bit_or j (a / 2) (b / 2),
  ap (λ (x : ℕ). bit j x) (halves a b),
)

pub bit-zero : (j : ℕ) → bit j 0 ≡ 0
bit-zero zero = refl
bit-zero (suc j) = bit-suc j 0 ∙ bit-zero j

half_pow : (i : ℕ) → 2 ^ suc i / 2 ≡ 2 ^ i
half_pow i = omega (arith, pow-suc 2 i)

pub bit-pow : (j i : ℕ) → bit j (2 ^ i) ≡ (if i == j then 1 else 0)
bit-pow zero zero = refl
bit-pow zero (suc i) = ground (arith, pow-suc 2 i)
bit-pow (suc j) zero = ground (arith, bit-suc j 1, bit-zero j)
bit-pow (suc j) (suc i) =
    ground (arith, bit-suc j (2 ^ suc i), ap (λ (x : ℕ). bit j x) (half_pow i), bit-pow j i)

-- A store into 8 bits keeps them.
pub bit-byte : (j x : ℕ) → j < 8 → bit j (x % 2 ^ 8) ≡ bit j x
bit-byte zero x h = omega arith
bit-byte (suc zero) x h = omega arith
bit-byte (suc (suc zero)) x h = omega arith
bit-byte (suc (suc (suc zero))) x h = omega arith
bit-byte (suc (suc (suc (suc zero)))) x h = omega arith
bit-byte (suc (suc (suc (suc (suc zero))))) x h = omega arith
bit-byte (suc (suc (suc (suc (suc (suc zero)))))) x h = omega arith
bit-byte (suc (suc (suc (suc (suc (suc (suc zero))))))) x h = omega arith
bit-byte (suc (suc (suc (suc (suc (suc (suc (suc j)))))))) x h = absurd (omega arith)

pub or_byte : (j a b : ℕ) → j < 8 → bit j (bit_or a b % 2 ^ 8) ≡ max (bit j a) (bit j b)
or_byte j a b h = bit-byte j (bit_or a b) h ∙ bit-bit_or j a b

-- Half bytes.
pub bit-high : (j x : ℕ) → bit (suc (suc (suc (suc j)))) x ≡ bit j (x / 16)
bit-high j x =
    rw
      (
        bit-suc (suc (suc (suc j))) x,
        bit-suc (suc (suc j)) (x / 2),
        bit-suc (suc j) (x / 2 / 2),
        bit-suc j (x / 2 / 2 / 2),
      )
      (ap (λ (y : ℕ). bit j y) (omega arith))

-- A digit below 16 has four bits, and as the higher digit of a byte it has the four higher ones.
pub bit-digit : (j v : ℕ) → v < 16 → 4 ≤ j → bit j v ≡ 0
bit-digit zero v h l = absurd (omega arith)
bit-digit (suc zero) v h l = absurd (omega arith)
bit-digit (suc (suc zero)) v h l = absurd (omega arith)
bit-digit (suc (suc (suc zero))) v h l = absurd (omega arith)
bit-digit (suc (suc (suc (suc j)))) v h l =
    let e : v / 16 ≡ 0 = omega arith in bit-high j v ∙ ap (λ (y : ℕ). bit j y) e ∙ bit-zero j

pub bit-shifted : (j v : ℕ) → bit j (v * 16) ≡ (if ltb j 4 then 0 else bit (j - 4) v)
bit-shifted zero v = omega arith
bit-shifted (suc zero) v = omega arith
bit-shifted (suc (suc zero)) v = omega arith
bit-shifted (suc (suc (suc zero))) v = omega arith
bit-shifted (suc (suc (suc (suc j)))) v =
    let e : v * 16 / 16 ≡ v = omega arith in
    bit-high j (v * 16) ∙ ap (λ (y : ℕ). bit j y) e ∙ ground arith
