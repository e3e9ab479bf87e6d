-- ===== src/Mon/Rmid/Search.antt =====
-- The search of `rmid_alloc` for an RMID that is not on a list.
use native.Mathlib.Decide.{ℕ_discrete}
use multi_resource_isolation.Prelude.{
  ℕ, zero, suc, ◌<◌, ◌≡◌, refl, sym, ◌∙◌, true, false, arith, List, [], ◌∷◌, Bool-cases, inl, inr,
  length, le-length_of_all, member,
}
use multi_resource_isolation.Types.{ok, err, Retval, Result-cases}
use multi_resource_isolation.Types.Bind.{ok_same}
use multi_resource_isolation.Cpu.{listed}
use multi_resource_isolation.Mon.Rmid.{find_rmid}

-- The search from the top down.
pub find_rmid_lem :
    (rmids : List ℕ) (n : ℕ) {r : ℕ}
    → find_rmid rmids n ≡ ok r
    → (r < n) × (listed r rmids ≡ false) × ((k : ℕ) → r < k → k < n → listed k rmids ≡ true)
unfolding find_rmid
find_rmid_lem rmids zero h = cc
find_rmid_lem rmids (suc n) {r} h = elim (Bool-cases (listed n rmids)) [
  | inl used ↦
      let on : find_rmid rmids n ≡ ok r = rw used at h in
      let (low, free, above) = find_rmid_lem rmids n {r = r} on in
      (
        omega arith,
        free,
        λ k l m. elim (ℕ_discrete k n) [
          | yes top ↦ rw top used
          | no below ↦ above k l (omega arith)
        ],
      )
  | inr free ↦
      let found : ok n ≡ ok r = rw free at h in
      let same = ok_same found in (omega arith, rw (← same) free, λ k l m. absurd (omega arith))
]

-- A failure means that every RMID is taken.
find_rmid_err :
    (rmids : List ℕ) (n : ℕ) {x : Retval}
    → find_rmid rmids n ≡ err x
    → (k : ℕ) → k < n
    → listed k rmids ≡ true
unfolding find_rmid
find_rmid_err rmids zero h k l = absurd (omega arith)
find_rmid_err rmids (suc n) {x} h k l = elim (Bool-cases (listed n rmids)) [
  | inl used ↦ elim (ℕ_discrete k n) [
    | yes top ↦ rw top used
    | no below ↦ find_rmid_err rmids n {x = x} (rw used at h) k (omega arith)
  ]
  | inr free ↦ absurd (let bad : ok n ≡ err x = rw free at h in cc)
]

listed-eq-member : (k : ℕ) (xs : List ℕ) → listed k xs ≡ member k xs
unfolding listed
listed-eq-member k [] = refl
listed-eq-member k (x ∷ xs) = ground (arith, listed-eq-member k xs)

-- With more RMIDs than cores one is found.
pub find_rmid_total :
    (rmids : List ℕ) (n : ℕ) → length rmids < n → (r : ℕ) × (find_rmid rmids n ≡ ok r)
find_rmid_total rmids n h = elim (Result-cases (find_rmid rmids n)) [
  | inl found ↦ found
  | inr (x, e) ↦
      let all =
        le-length_of_all n rmids
          (λ k l. sym (listed-eq-member k rmids) ∙ find_rmid_err rmids n {x = x} e k l) in
      absurd (omega arith)
]
