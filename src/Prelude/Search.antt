-- ===== src/Prelude/Search.antt =====
-- Lists of numbers: a list that has every number below `n` has `n` entries at least.
use Prim.Native.Nat.{ℕ, zero, suc, ◌≤◌, ◌<◌}
use mathlib.Core.Path.{◌≡◌, refl}
use mathlib.Core.Bool.{Bool, true, false}
use mathlib.Core.List.{List, [], ◌∷◌}
use native.Mathlib.Omega.{arith}
use multi_resource_isolation.Prelude.Tests.{◌==◌, if◌then◌else◌}
use multi_resource_isolation.Prelude.Lists.{length, All}

-- Does a number stand in a list?
abbrev pub member : ℕ → List ℕ → Bool
member k [] = false
member k (x ∷ xs) = if k == x then true else member k xs

without : ℕ → List ℕ → List ℕ
without k [] = []
without k (x ∷ xs) = if k == x then without k xs else x ∷ without k xs

length-without : (k : ℕ) (xs : List ℕ) → length (without k xs) ≤ length xs
unfolding without
length-without k [] = omega arith
length-without k (x ∷ xs) = ground (arith, length-without k xs)

length-without_member :
    (k : ℕ) (xs : List ℕ) → member k xs ≡ true → length (without k xs) < length xs
unfolding without
length-without_member k [] h = cc
length-without_member k (x ∷ xs) h = ground (arith, length-without k xs, length-without_member k xs)

member-without : (j k : ℕ) (xs : List ℕ) → j < k → member j (without k xs) ≡ member j xs
unfolding without
member-without j k [] h = refl
member-without j k (x ∷ xs) h = ground (arith, member-without j k xs h)

pub le-length_of_all :
    (n : ℕ) (xs : List ℕ) → ((k : ℕ) → k < n → member k xs ≡ true) → n ≤ length xs
le-length_of_all zero xs h = omega arith
le-length_of_all (suc n) xs h = omega (
  arith,
  length-without_member n xs (h n (omega arith)),
  le-length_of_all n (without n xs)
      (λ k l. ground (arith, member-without k n xs l, h k (omega arith))),
)

-- What holds of all entries, and what follows from it.
pub All-implies :
    {A : Type 0} (P Q : A → Type 0) (xs : List A) → ((x : A) → P x → Q x) → All P xs → All Q xs
All-implies P Q [] f h = tt
All-implies P Q (x ∷ xs) f h = (f x h.0, All-implies P Q xs f h.1)
