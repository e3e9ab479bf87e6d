-- ===== src/Prelude/Fields.antt =====
-- Fields of a word: `bit_and` with a mask of high bits, and the order of `bit_or`.
use Prim.Native.Nat.{ℕ, zero, suc, ◌+◌, ◌-◌, ◌*◌, ◌/◌, ◌^◌, ◌≤◌, ◌<◌, bit_and, bit_or}
use mathlib.Core.Path.{◌≡◌, refl, sym, ap, ◌∙◌}
use native.Mathlib.Nat.{pow-suc, div-div-eq-div-mul}
use native.Mathlib.Omega.{arith}
use multi_resource_isolation.Prelude.Bits.{
  bit_and-low, bit_or-low, bit_or-zero, zero-bit_or, double_pow, bit_and-ones, bit_or-fields,
}

div_pow : (a k : ℕ) → a / 2 ^ suc k ≡ a / 2 / 2 ^ k
div_pow a k =
    let twice : 2 ^ suc k ≡ 2 * 2 ^ k = omega (arith, pow-suc 2 k) in
    ap (λ (t : ℕ). a / t) twice ∙ sym (div-div-eq-div-mul a 2 (2 ^ k))

-- A mask shifted up by `k` bits.
pub bit_and-shifted : (k a q : ℕ) → bit_and a (q * 2 ^ k) ≡ bit_and (a / 2 ^ k) q * 2 ^ k
bit_and-shifted zero a q =
    let one : q * 2 ^ 0 ≡ q = omega arith in
    let same : a / 2 ^ 0 ≡ a = omega arith in rw (one, same) (omega arith)
bit_and-shifted (suc k) a q =
    let low = bit_and-low a (q * 2 ^ suc k) in
    let half : q * 2 ^ suc k / 2 ≡ q * 2 ^ k = omega (arith, double_pow q k) in
    omega (
      arith,
      low,
      ap (λ (t : ℕ). bit_and (a / 2) t) half,
      bit_and-shifted k (a / 2) q,
      double_pow q k,
      double_pow (bit_and (a / 2 / 2 ^ k) q) k,
      ap (λ (t : ℕ). bit_and t q * 2 ^ suc k) (div_pow a k),
    )

bit_or_comm_below : (n a b : ℕ) → a ≤ n → bit_or a b ≡ bit_or b a
bit_or_comm_below n zero b h = zero-bit_or b ∙ sym (bit_or-zero b)
bit_or_comm_below zero (suc a) b h = absurd (omega arith)
bit_or_comm_below (suc n) (suc a) b h = omega (
  arith,
  bit_or-low (suc a) b,
  bit_or-low b (suc a),
  bit_or_comm_below n (suc a / 2) (b / 2) (omega arith),
)

pub bit_or_comm : (a b : ℕ) → bit_or a b ≡ bit_or b a
bit_or_comm a b = bit_or_comm_below a a b (omega arith)

-- The upper half of a 64-bit word, and a word put together from an upper half and a lower field.
pub bit_and-upper : (a : ℕ) → a < 2 ^ 64 → bit_and a (2 ^ 64 - 2 ^ 32) ≡ a / 2 ^ 32 * 2 ^ 32
bit_and-upper a h =
    let mask : 2 ^ 64 - 2 ^ 32 ≡ (2 ^ 32 - 1) * 2 ^ 32 = refl in
    omega (arith, bit_and-shifted 32 a (2 ^ 32 - 1), bit_and-ones 32 (a / 2 ^ 32))

pub bit_or-upper : (q r : ℕ) → r < 2 ^ 32 → bit_or (q * 2 ^ 32) r ≡ q * 2 ^ 32 + r
bit_or-upper q r h = bit_or_comm (q * 2 ^ 32) r ∙ bit_or-fields 32 q r h
