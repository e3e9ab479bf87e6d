-- ===== src/Cpu/Ids.antt =====
-- `pqos_cpu_get_sockets` and `pqos_cpu_get_l2ids` list each id of a core once.
use multi_resource_isolation.Prelude.{
  ℕ, ◌+◌, ◌≤◌, ◌≡◌, refl, sym, subst, ◌∙◌, ◌⊎◌, inl, inr, ◌↔◌, true, false, none, some, List, [],
  ◌∷◌, ◌++◌, arith, length, length-append, In, Distinct, Bool-cases, if◌then◌else◌, false≢true,
}
use multi_resource_isolation.Cpu.{
  Cpuinfo, listed, collect, sockets_of, l2ids_of, get_sockets, get_l2ids,
}

-- A list holds each of `xs` once, and no other.
pub record IsIndex (xs ids : List ℕ) : Type 0 where
  pub complete : (x : ℕ) → In x xs ↔ In x ids
  pub distinct : Distinct ids
  pub fits : length ids ≤ length xs

listed-In : (x : ℕ) (ids : List ℕ) → (listed x ids ≡ true) ↔ In x ids
unfolding listed
listed-In x [] = ground arith
listed-In x (y ∷ ys) = ground (arith, listed-In x ys)

In-snoc : (x y : ℕ) (ids : List ℕ) → In x (ids ++ (y ∷ [])) ↔ (In x ids ⊎ (x ≡ y))
In-snoc x y [] = ground arith
In-snoc x y (z ∷ zs) = ground (arith, In-snoc x y zs)

Distinct-snoc : (y : ℕ) (ids : List ℕ) → ¬ In y ids → Distinct ids → Distinct (ids ++ (y ∷ []))
Distinct-snoc y [] n d = (λ i. i, tt)
Distinct-snoc y (z ∷ zs) n d = (
  λ i. elim ((In-snoc z y zs).0 i) [ inl old ↦ d.0 old | inr e ↦ n (inl (sym e)) ],
  Distinct-snoc y zs (λ i. n (inr i)) d.1,
)

-- One round of the outer loop.
abbrev note : ℕ → List ℕ → List ℕ
note y ids = if listed y ids then ids else ids ++ (y ∷ [])

note-In : (y : ℕ) (ids : List ℕ) (x : ℕ) → In x (note y ids) ↔ (In x ids ⊎ (x ≡ y))
note-In y ids x = elim (Bool-cases (listed y ids)) [
  | inl old ↦ rw old (
    inl,
    λ s. elim s [ inl i ↦ i | inr e ↦ subst (λ z. In z ids) (sym e) ((listed-In y ids).0 old) ],
  )
  | inr new ↦ rw new (In-snoc x y ids)
]

note-Distinct : (y : ℕ) (ids : List ℕ) → Distinct ids → Distinct (note y ids)
note-Distinct y ids d = elim (Bool-cases (listed y ids)) [
  | inl old ↦ rw old d
  | inr new ↦ rw new (Distinct-snoc y ids (λ i. false≢true (sym new ∙ (listed-In y ids).1 i)) d)
]

length-note : (y : ℕ) (ids : List ℕ) → length (note y ids) ≤ length ids + 1
length-note y ids = ground (arith, length-append ids (y ∷ []))

regroup : {A B C D E : Type 0} → (A ↔ (B ⊎ C)) → (B ↔ (D ⊎ E)) → A ↔ (D ⊎ (E ⊎ C))
regroup f g = (
  λ a. elim (f.0 a) [
    | inl b ↦ elim (g.0 b) [ inl d ↦ inl d | inr e ↦ inr (inl e) ]
    | inr c ↦ inr (inr c)
  ],
  λ s. elim s [
    | inl d ↦ f.1 (inl (g.1 (inl d)))
    | inr t ↦ elim t [ inl e ↦ f.1 (inl (g.1 (inr e))) | inr c ↦ f.1 (inr c) ]
  ],
)

-- What the outer loop has collected: the old list and the new ids.
collect-In : (xs ids : List ℕ) (x : ℕ) → In x (collect xs ids) ↔ (In x ids ⊎ In x xs)
unfolding collect
collect-In [] ids x = (inl, λ s. elim s [ inl i ↦ i | inr i ↦ absurd i ])
collect-In (y ∷ ys) ids x = regroup (collect-In ys (note y ids) x) (note-In y ids x)

collect-Distinct : (xs ids : List ℕ) → Distinct ids → Distinct (collect xs ids)
unfolding collect
collect-Distinct [] ids d = d
collect-Distinct (y ∷ ys) ids d = collect-Distinct ys (note y ids) (note-Distinct y ids d)

length-collect : (xs ids : List ℕ) → length (collect xs ids) ≤ length ids + length xs
unfolding collect
length-collect [] ids = omega arith
length-collect (y ∷ ys) ids = omega (arith, length-collect ys (note y ids), length-note y ids)

collect-IsIndex : (xs : List ℕ) → IsIndex xs (collect xs [])
collect-IsIndex xs = record {
  complete = λ x. (
    λ i. (collect-In xs [] x).1 (inr i),
    λ i. elim ((collect-In xs [] x).0 i) [ inl n ↦ absurd n | inr j ↦ j ],
  );
  distinct = collect-Distinct xs [] tt;
  fits = omega (arith, length-collect xs []);
}

-- With the memory granted, `pqos_cpu_get_sockets` returns each socket id of a core exactly once and
-- no other id, and never more ids than the block of `num_cores` entries holds; without it, NULL.
pub get_sockets-IsIndex :
    (cpu : Cpuinfo)
    → ((ids : List ℕ) × (get_sockets true cpu ≡ some ids) × IsIndex (sockets_of cpu.cores) ids)
      × (get_sockets false cpu ≡ none)
unfolding get_sockets
get_sockets-IsIndex cpu = ((_, refl, collect-IsIndex (sockets_of cpu.cores)), refl)

-- The same of `pqos_cpu_get_l2ids` and the L2 cluster ids.
get_l2ids-IsIndex :
    (cpu : Cpuinfo)
    → ((ids : List ℕ) × (get_l2ids true cpu ≡ some ids) × IsIndex (l2ids_of cpu.cores) ids)
      × (get_l2ids false cpu ≡ none)
unfolding get_l2ids
get_l2ids-IsIndex cpu = ((_, refl, collect-IsIndex (l2ids_of cpu.cores)), refl)
