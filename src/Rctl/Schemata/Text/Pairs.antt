-- ===== src/Rctl/Schemata/Text/Pairs.antt =====
-- Tables related entry by entry, and an entry in the middle of a table.
use multi_resource_isolation.Prelude.{
  ℕ, ◌≡◌, refl, ap, ap₂, arith, List, [], ◌∷◌, ◌++◌, some, All, length, get_elem?, set, map,
}
use multi_resource_isolation.Rctl.Schemata.Text.Setting.{fill}

module _ {A B : Type 0} where
  -- Two tables of one length, related entry by entry.
  abbrev pub Pointwise : (A → B → Type 0) → List A → List B → Type 0
  Pointwise R [] [] = Unit
  Pointwise R (a ∷ xs) (b ∷ ys) = R a b × Pointwise R xs ys
  Pointwise R _ _ = ⊥

  pub length-Pointwise :
      (R : A → B → Type 0) (xs : List A) (ys : List B) → Pointwise R xs ys → length ys ≡ length xs
  length-Pointwise R [] [] p = refl
  length-Pointwise R (a ∷ xs) [] p = absurd p
  length-Pointwise R [] (b ∷ ys) p = absurd p
  length-Pointwise R (a ∷ xs) (b ∷ ys) p = omega (arith, length-Pointwise R xs ys p.1)

  pub All-Pointwise :
      (R : A → B → Type 0) (P : A → Type 0)
      → ((a : A) (b : B) → R a b → P a)
      → (xs : List A) (ys : List B) → Pointwise R xs ys
      → All P xs
  All-Pointwise R P f [] ys p = tt
  All-Pointwise R P f (a ∷ xs) [] p = absurd p
  All-Pointwise R P f (a ∷ xs) (b ∷ ys) p = (f a b p.0, All-Pointwise R P f xs ys p.1)

  pub Pointwise-fill :
      (R Q : A → B → Type 0) (write : A → ℕ → A) (value : B → ℕ)
      → ((a : A) (b : B) → R a b → Q (write a (value b)) b)
      → (xs : List A) (ys : List B) → Pointwise R xs ys
      → Pointwise Q (fill write xs (map value ys)) ys
  Pointwise-fill R Q write value f [] [] p = tt
  Pointwise-fill R Q write value f (a ∷ xs) [] p = absurd p
  Pointwise-fill R Q write value f [] (b ∷ ys) p = absurd p
  Pointwise-fill R Q write value f (a ∷ xs) (b ∷ ys) p =
      (f a b p.0, Pointwise-fill R Q write value f xs ys p.1)

module _ {B : Type 0} where
  pub All-map :
      (P : ℕ → Type 0) (Q : B → Type 0) (value : B → ℕ)
      → ((b : B) → Q b → P (value b))
      → (ys : List B) → All Q ys
      → All P (map value ys)
  All-map P Q value f [] q = tt
  All-map P Q value f (b ∷ ys) q = (f b q.0, All-map P Q value f ys q.1)

  pub length-map : (value : B → ℕ) (ys : List B) → length (map value ys) ≡ length ys
  length-map value [] = refl
  length-map value (b ∷ ys) = omega (arith, length-map value ys)

pub equal : {A : Type 0} (xs ys : List A) → Pointwise (λ (a b : A). a ≡ b) xs ys → xs ≡ ys
equal [] [] p = refl
equal (a ∷ xs) [] p = absurd p
equal [] (b ∷ ys) p = absurd p
equal (a ∷ xs) (b ∷ ys) p = ap₂ (λ a t. a ∷ t) p.0 (equal xs ys p.1)

pub get_elem?-middle :
    {A : Type 0} (pre post : List A) (a : A) → get_elem? (pre ++ (a ∷ post)) (length pre) ≡ some a
get_elem?-middle [] post a = refl
get_elem?-middle (x ∷ pre) post a = get_elem?-middle pre post a

pub set-middle :
    {A : Type 0} (pre post : List A) (a b : A)
    → set (length pre) b (pre ++ (a ∷ post)) ≡ pre ++ (b ∷ post)
set-middle [] post a b = refl
set-middle {A = A} (x ∷ pre) post a b = ap (λ (t : List A). x ∷ t) (set-middle pre post a b)
