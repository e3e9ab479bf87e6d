-- ===== src/Prelude/Lists.antt =====
-- Lists measured and indexed by native numbers, under the library's names.
use Prim.Native.Nat.{ℕ, zero, suc, ◌+◌, ◌-◌, ◌≤◌, ◌<◌}
use mathlib.Core.Path.{◌≡◌, refl, ap, sym, subst}
use mathlib.Core.List.{List, [], ◌∷◌, ◌++◌}
use mathlib.Core.Option.{Option, none, some}
use mathlib.Core.Logic.{◌⊎◌, inl, inr}
use native.Mathlib.Omega.{arith}
use multi_resource_isolation.Prelude.Tests.{ltb, if◌then◌else◌}

module _ {ℓ} {A : Type ℓ} where
  abbrev pub length : List A → ℕ
  length [] = 0
  length (x ∷ xs) = suc (length xs)

  abbrev pub get_elem? : List A → ℕ → Option A
  get_elem? [] i = none
  get_elem? (x ∷ xs) zero = some x
  get_elem? (x ∷ xs) (suc i) = get_elem? xs i

  -- The entry at a place, `d` out of range, and another put there, nothing out of range.
  abbrev pub get_or : A → ℕ → List A → A
  get_or d i [] = d
  get_or d zero (x ∷ xs) = x
  get_or d (suc i) (x ∷ xs) = get_or d i xs

  abbrev pub set : ℕ → A → List A → List A
  set i y [] = []
  set zero y (x ∷ xs) = y ∷ xs
  set (suc i) y (x ∷ xs) = x ∷ set i y xs

  abbrev pub take : ℕ → List A → List A
  take zero xs = []
  take (suc n) [] = []
  take (suc n) (x ∷ xs) = x ∷ take n xs

  abbrev pub replicate : ℕ → A → List A
  replicate zero x = []
  replicate (suc n) x = x ∷ replicate n x

  pub length-set : (i : ℕ) (y : A) (xs : List A) → length (set i y xs) ≡ length xs
  length-set i y [] = refl
  length-set zero y (x ∷ xs) = refl
  length-set (suc i) y (x ∷ xs) = omega (arith, length-set i y xs)

  pub get_or-set :
      (d : A) (i : ℕ) (y : A) (xs : List A) → i < length xs → get_or d i (set i y xs) ≡ y
  get_or-set d i y [] h = absurd (omega arith)
  get_or-set d zero y (x ∷ xs) h = refl
  get_or-set d (suc i) y (x ∷ xs) h = get_or-set d i y xs (omega arith)

  pub get_or-set_other :
      (d : A) (i j : ℕ) (y : A) (xs : List A) → ¬ (i ≡ j) → get_or d j (set i y xs) ≡ get_or d j xs
  get_or-set_other d i j y [] h = refl
  get_or-set_other d zero zero y (x ∷ xs) h = absurd (h refl)
  get_or-set_other d zero (suc j) y (x ∷ xs) h = refl
  get_or-set_other d (suc i) zero y (x ∷ xs) h = refl
  get_or-set_other d (suc i) (suc j) y (x ∷ xs) h = get_or-set_other d i j y xs (λ e. h (ap suc e))

  pub length-replicate : (n : ℕ) (x : A) → length (replicate n x) ≡ n
  length-replicate zero x = refl
  length-replicate (suc n) x = omega (arith, length-replicate n x)

  pub get_or-replicate : (d : A) (n i : ℕ) → get_or d i (replicate n d) ≡ d
  get_or-replicate d zero i = refl
  get_or-replicate d (suc n) zero = refl
  get_or-replicate d (suc n) (suc i) = get_or-replicate d n i

  pub get_or-append :
      (d : A) (i : ℕ) (xs ys : List A)
      → get_or d i (xs ++ ys)
        ≡ (if ltb i (length xs) then get_or d i xs else get_or d (i - length xs) ys)
  get_or-append d i [] ys = ground arith
  get_or-append d zero (x ∷ xs) ys = ground arith
  get_or-append d (suc i) (x ∷ xs) ys = rw (get_or-append d i xs ys) (ground arith)

  pub get_or-beyond : (d : A) (i : ℕ) (xs : List A) → length xs ≤ i → get_or d i xs ≡ d
  get_or-beyond d i [] h = refl
  get_or-beyond d zero (x ∷ xs) h = absurd (omega arith)
  get_or-beyond d (suc i) (x ∷ xs) h = get_or-beyond d i xs (omega arith)

  pub length-append : (xs ys : List A) → length (xs ++ ys) ≡ length xs + length ys
  length-append [] ys = omega arith
  length-append (x ∷ xs) ys = omega (arith, length-append xs ys)

module _ {A : Type 0} where
  -- `x` stands in the list, with its place kept.
  abbrev pub In : A → List A → Type 0
  In x [] = ⊥
  In x (y ∷ ys) = (x ≡ y) ⊎ In x ys

  abbrev pub All : (A → Type 0) → List A → Type 0
  All P [] = Unit
  All P (x ∷ xs) = P x × All P xs

  -- No entry stands twice.
  abbrev pub Distinct : List A → Type 0
  Distinct [] = Unit
  Distinct (x ∷ xs) = (¬ In x xs) × Distinct xs

  pub All-In : (P : A → Type 0) {x : A} (xs : List A) → All P xs → In x xs → P x
  All-In P [] h i = absurd i
  All-In P (y ∷ ys) h (inl e) = subst P (sym e) h.0
  All-In P (y ∷ ys) h (inr i) = All-In P ys h.1 i
