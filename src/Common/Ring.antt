-- ===== src/Common/Ring.antt =====
-- Circular doubly linked lists, as the order books thread them through their pools. A ring is read
-- off two functions, the `next` and the `prev` pointer of each node.
pub mod Edit
pub mod Bound
use hft_system.Base.{ℕ, ◌≡◌, ◌≢◌, refl, sym, ◌∙◌, Option, some, List, [], ◌∷◌, ◌++◌}

abbrev pub All {ℓ κ} : {A : Type ℓ} → (A → Type κ) → List A → Type κ
All P [] = Unit
All P (x ∷ xs) = P x × All P xs

abbrev pub Distinct : List ℕ → Type 0
Distinct [] = Unit
Distinct (x ∷ xs) = All (λ y. x ≢ y) xs × Distinct xs

-- The node before the end of a chain that starts at `a` and goes on through `xs`.
abbrev pub last : ℕ → List ℕ → ℕ
last a [] = a
last a (x ∷ xs) = last x xs

pub All-append {ℓ κ} :
    {A : Type ℓ} (P : A → Type κ) (xs ys : List A) → All P xs → All P ys → All P (xs ++ ys)
All-append P [] ys h k = k
All-append P (x ∷ xs) ys h k = (h.0, All-append P xs ys h.1 k)

pub All-left {ℓ κ} : {A : Type ℓ} (P : A → Type κ) (xs ys : List A) → All P (xs ++ ys) → All P xs
All-left P [] ys h = tt
All-left P (x ∷ xs) ys h = (h.0, All-left P xs ys h.1)

pub All-right {ℓ κ} : {A : Type ℓ} (P : A → Type κ) (xs ys : List A) → All P (xs ++ ys) → All P ys
All-right P [] ys h = h
All-right P (x ∷ xs) ys h = All-right P xs ys h.1

pub All-map {ℓ κ μ} :
    {A : Type ℓ} (P : A → Type κ) (Q : A → Type μ) (xs : List A)
    → ((x : A) → P x → Q x)
    → All P xs
    → All Q xs
All-map P Q [] f h = tt
All-map P Q (x ∷ xs) f h = (f x h.0, All-map P Q xs f h.1)

pub All-both {ℓ κ μ} :
    {A : Type ℓ} (P : A → Type κ) (Q : A → Type μ) (xs : List A)
    → All P xs
    → All Q xs
    → All (λ x. P x × Q x) xs
All-both P Q [] h k = tt
All-both P Q (x ∷ xs) h k = ((h.0, k.0), All-both P Q xs h.1 k.1)

pub last-All {κ} : (P : ℕ → Type κ) (a : ℕ) (xs : List ℕ) → P a → All P xs → P (last a xs)
last-All P a [] h k = h
last-All P a (x ∷ xs) h k = last-All P x xs k.0 k.1

-- `b` follows `a`.
abbrev pub Link : (nxt prv : ℕ → Option ℕ) → ℕ → ℕ → Type 0
Link nxt prv a b = (nxt a ≡ some b) × (prv b ≡ some a)

-- From `a` through `xs` to `b`.
abbrev pub Chain : (nxt prv : ℕ → Option ℕ) → ℕ → List ℕ → ℕ → Type 0
Chain nxt prv a [] b = Link nxt prv a b
Chain nxt prv a (x ∷ xs) b = Link nxt prv a x × Chain nxt prv x xs b

abbrev pub Ring : (nxt prv : ℕ → Option ℕ) → ℕ → List ℕ → Type 0
Ring nxt prv a xs = Chain nxt prv a xs a

module _ (nxt prv : ℕ → Option ℕ) where
  pub Chain-append :
      (a : ℕ) (xs : List ℕ) (b : ℕ) (ys : List ℕ) (c : ℕ)
      → Chain nxt prv a xs b
      → Chain nxt prv b ys c
      → Chain nxt prv a (xs ++ b ∷ ys) c
  Chain-append a [] b ys c h k = (h, k)
  Chain-append a (x ∷ xs) b ys c h k = (h.0, Chain-append x xs b ys c h.1 k)

  pub Chain-split :
      (a : ℕ) (xs : List ℕ) (b : ℕ) (ys : List ℕ) (c : ℕ)
      → Chain nxt prv a (xs ++ b ∷ ys) c
      → Chain nxt prv a xs b × Chain nxt prv b ys c
  Chain-split a [] b ys c h = h
  Chain-split a (x ∷ xs) b ys c h = let (l, r) = Chain-split x xs b ys c h.1 in ((h.0, l), r)

  pub Chain-end : (a : ℕ) (xs : List ℕ) (b : ℕ) → Chain nxt prv a xs b → Link nxt prv (last a xs) b
  Chain-end a [] b h = h
  Chain-end a (x ∷ xs) b h = Chain-end x xs b h.1

  -- The same ring, read from any of its nodes.
  pub Ring-rotate :
      (a : ℕ) (xs : List ℕ) (b : ℕ) (ys : List ℕ)
      → Ring nxt prv a (xs ++ b ∷ ys)
      → Ring nxt prv b (ys ++ a ∷ xs)
  Ring-rotate a xs b ys h = let (l, r) = Chain-split a xs b ys a h in Chain-append b ys a xs b r l

module _ (nxt prv nxt' prv' : ℕ → Option ℕ) where
  -- A chain lives on where its pointers are left alone.
  pub Chain-frame :
      (a : ℕ) (xs : List ℕ) (b : ℕ)
      → nxt' a ≡ nxt a
      → All (λ p. nxt' p ≡ nxt p) xs
      → All (λ p. prv' p ≡ prv p) xs
      → prv' b ≡ prv b
      → Chain nxt prv a xs b
      → Chain nxt' prv' a xs b
  Chain-frame a [] b ea n p eb h = (ea ∙ h.0, eb ∙ h.1)
  Chain-frame a (x ∷ xs) b ea n p eb h =
      ((ea ∙ h.0.0, p.0 ∙ h.0.1), Chain-frame x xs b n.0 n.1 p.1 eb h.1)

  -- Its end may be led elsewhere.
  pub Chain-redirect :
      (a : ℕ) (xs : List ℕ) (b c : ℕ)
      → Distinct (a ∷ xs)
      → All (λ p. p ≢ last a xs → nxt' p ≡ nxt p) (a ∷ xs)
      → All (λ p. prv' p ≡ prv p) xs
      → nxt' (last a xs) ≡ some c
      → prv' c ≡ some (last a xs)
      → Chain nxt prv a xs b
      → Chain nxt' prv' a xs c
  Chain-redirect a [] b c d n p ec pc h = (ec, pc)
  Chain-redirect a (x ∷ xs) b c d n p ec pc h = (
    (n.0 (last-All (λ y. a ≢ y) x xs d.0.0 d.0.1) ∙ h.0.0, p.0 ∙ h.0.1),
    Chain-redirect x xs b c d.1 n.1 p.1 ec pc h.1,
  )

  -- Functions that agree have the same chains.
  pub Chain-same :
      (a : ℕ) (xs : List ℕ) (b : ℕ)
      → ((p : ℕ) → nxt' p ≡ nxt p)
      → ((p : ℕ) → prv' p ≡ prv p)
      → Chain nxt prv a xs b
      → Chain nxt' prv' a xs b
  Chain-same a [] b n p h = (n a ∙ h.0, p b ∙ h.1)
  Chain-same a (x ∷ xs) b n p h = ((n a ∙ h.0.0, p x ∙ h.0.1), Chain-same x xs b n p h.1)
