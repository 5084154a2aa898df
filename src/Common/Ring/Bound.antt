-- ===== src/Common/Ring/Bound.antt =====
-- Different numbers below a bound are no more than the bound: a ring fits in its pool.
use hft_system.Base.{
  ℕ, zero, suc, ◌≤◌, ◌<◌, ◌≢◌, List, [], ◌∷◌, ◌==◌, if◌then◌else◌, arith, Bool-cases, inl, inr,
  length,
}
use hft_system.Common.Ring.{All, Distinct, All-map}

without : ℕ → List ℕ → List ℕ
without n [] = []
without n (x ∷ xs) = if x == n then xs else x ∷ without n xs

without-All {κ} : (P : ℕ → Type κ) (n : ℕ) (xs : List ℕ) → All P xs → All P (without n xs)
unfolding without
without-All P n [] h = tt
without-All P n (x ∷ xs) h = elim (Bool-cases (x == n)) [
  | inl here ↦ rw here h.1
  | inr there ↦ rw there (h.0, without-All P n xs h.1)
]

without-Distinct : (n : ℕ) (xs : List ℕ) → Distinct xs → Distinct (without n xs)
unfolding without
without-Distinct n [] d = tt
without-Distinct n (x ∷ xs) d = elim (Bool-cases (x == n)) [
  | inl here ↦ rw here d.1
  | inr there ↦ rw there (without-All (λ y. x ≢ y) n xs d.0, without-Distinct n xs d.1)
]

length-without : (n : ℕ) (xs : List ℕ) → length xs ≤ suc (length (without n xs))
unfolding without
length-without n [] = omega arith
length-without n (x ∷ xs) = elim (Bool-cases (x == n)) [
  | inl here ↦ rw here (omega arith)
  | inr there ↦ rw there (let rest = length-without n xs in omega arith)
]

below : (n : ℕ) (xs : List ℕ) → All (λ y. n ≢ y) xs → All (λ y. y < suc n) xs → All (λ y. y < n) xs
below n [] h k = tt
below n (x ∷ xs) h k = (ground (arith, h.0, k.0), below n xs h.1 k.1)

without-below :
    (n : ℕ) (xs : List ℕ) → Distinct xs → All (λ y. y < suc n) xs → All (λ y. y < n) (without n xs)
unfolding without
without-below n [] d k = tt
without-below n (x ∷ xs) d k = elim (Bool-cases (x == n)) [
  | inl here ↦
      rw here
        (below n xs (All-map (λ y. x ≢ y) (λ y. n ≢ y) xs (λ y ne. ground (arith, here)) d.0) k.1)
  | inr there ↦ rw there (ground (arith, there, k.0), without-below n xs d.1 k.1)
]

pub length-Distinct : (n : ℕ) (xs : List ℕ) → Distinct xs → All (λ y. y < n) xs → length xs ≤ n
length-Distinct zero [] d k = omega arith
length-Distinct zero (x ∷ xs) d k = absurd (let h = k.0 in omega arith)
length-Distinct (suc n) xs d k =
    let rest =
      length-Distinct n (without n xs) (without-Distinct n xs d) (without-below n xs d k) in
    let one = length-without n xs in omega arith
