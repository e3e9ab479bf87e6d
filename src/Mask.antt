-- ===== src/Mask.antt =====
-- `is_contiguous` of lib/api.c: whether the ones of a 64-bit mask stand together.
pub mod Run
use multi_resource_isolation.Prelude.{
  ℕ, zero, suc, ◌/◌, Bool, true, false, bit_and, ◌==◌, if◌then◌else◌,
}

-- `while ((bitmask & 1) == 0) bitmask >>= 1;`. 64 rounds empty a 64-bit word.
pub skip_zeros : ℕ → ℕ → ℕ
skip_zeros zero m = m
skip_zeros (suc fuel) m = let rest = skip_zeros fuel (m / 2) in if bit_and m 1 == 0 then rest else m

-- `while ((bitmask & 1) != 0) bitmask >>= 1;`
pub skip_ones : ℕ → ℕ → ℕ
skip_ones zero m = m
skip_ones (suc fuel) m = let rest = skip_ones fuel (m / 2) in if bit_and m 1 == 0 then m else rest

pub is_contiguous : ℕ → Bool
is_contiguous bitmask = if bitmask == 0 then false else skip_ones 64 (skip_zeros 64 bitmask) == 0
