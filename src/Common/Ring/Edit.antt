-- ===== src/Common/Ring/Edit.antt =====
-- Putting a node into a ring and taking one out, by the few pointers that change.
use hft_system.Base.{
  ℕ, ◌≡◌, ◌≢◌, refl, sym, Option, some, List, [], ◌∷◌, ◌++◌, append-nil, append_assoc,
}
use hft_system.Common.Ring.{
  All, Distinct, last, All-append, All-left, All-right, All-map, Ring, Chain-append, Chain-redirect,
  Ring-rotate,
}

-- No element of one list is in the other.
abbrev pub Apart : List ℕ → List ℕ → Type 0
Apart xs ys = All (λ x. All (λ y. x ≢ y) ys) xs

pub Distinct-append :
    (xs ys : List ℕ) → Distinct xs → Distinct ys → Apart xs ys → Distinct (xs ++ ys)
Distinct-append [] ys d e a = e
Distinct-append (x ∷ xs) ys d e a =
    (All-append (λ y. x ≢ y) xs ys d.0 a.0, Distinct-append xs ys d.1 e a.1)

pub Distinct-split :
    (xs ys : List ℕ) → Distinct (xs ++ ys) → Distinct xs × Distinct ys × Apart xs ys
Distinct-split [] ys d = (tt, d, tt)
Distinct-split (x ∷ xs) ys d =
    let (dx, dy, a) = Distinct-split xs ys d.1 in
    ((All-left (λ y. x ≢ y) xs ys d.0, dx), dy, (All-right (λ y. x ≢ y) xs ys d.0, a))

Apart-nil : (xs : List ℕ) → Apart xs []
Apart-nil [] = tt
Apart-nil (x ∷ xs) = (tt, Apart-nil xs)

Apart-cons : (y : ℕ) (ys xs : List ℕ) → All (λ x. x ≢ y) xs → Apart xs ys → Apart xs (y ∷ ys)
Apart-cons y ys [] h a = tt
Apart-cons y ys (x ∷ xs) h a = ((h.0, a.0), Apart-cons y ys xs h.1 a.1)

All-sym : (x : ℕ) (ys : List ℕ) → All (λ y. x ≢ y) ys → All (λ y. y ≢ x) ys
All-sym x ys = All-map (λ y. x ≢ y) (λ y. y ≢ x) ys (λ y ne e. ne (sym e))

pub Apart-sym : (xs ys : List ℕ) → Apart xs ys → Apart ys xs
Apart-sym [] ys a = Apart-nil ys
Apart-sym (x ∷ xs) ys a = Apart-cons x xs ys (All-sym x ys a.0) (Apart-sym xs ys a.1)

pub Distinct-rotate : (xs ys : List ℕ) → Distinct (xs ++ ys) → Distinct (ys ++ xs)
Distinct-rotate xs ys d =
    let (dx, dy, a) = Distinct-split xs ys d in Distinct-append ys xs dy dx (Apart-sym xs ys a)

last-append : (a : ℕ) (xs : List ℕ) (b : ℕ) (ys : List ℕ) → last a (xs ++ b ∷ ys) ≡ last b ys
last-append a [] b ys = refl
last-append a (x ∷ xs) b ys = last-append x xs b ys

-- The node after the last one of `xs` in a ring read from `a`.
abbrev pub first : ℕ → List ℕ → ℕ
first a [] = a
first a (y ∷ ys) = y

pub first-All {κ} : (P : ℕ → Type κ) (a : ℕ) (xs : List ℕ) → P a → All P xs → P (first a xs)
first-All P a [] h k = h
first-All P a (x ∷ xs) h k = k.0

module _ (nxt prv nxt' prv' : ℕ → Option ℕ) where
  -- `o` is linked in before `x`, whose predecessor was `l`; no other pointer changes.
  pub record Inserts (l x o : ℕ) : Type 0 where
    pub next_other : (p : ℕ) → p ≢ l → p ≢ o → nxt' p ≡ nxt p
    pub prev_other : (p : ℕ) → p ≢ x → p ≢ o → prv' p ≡ prv p
    pub next_before : nxt' l ≡ some o
    pub next_new : nxt' o ≡ some x
    pub prev_new : prv' o ≡ some l
    pub prev_after : prv' x ≡ some o

  -- `x`, which stood between `l` and `y`, is passed over; its own pointers do not matter.
  pub record Removes (l x y : ℕ) : Type 0 where
    pub next_other : (p : ℕ) → p ≢ l → p ≢ x → nxt' p ≡ nxt p
    pub prev_other : (p : ℕ) → p ≢ y → p ≢ x → prv' p ≡ prv p
    pub next_before : nxt' l ≡ some y
    pub prev_after : prv' y ≡ some l

  -- Insertion before the node that the ring is read from makes the new node the last.
  pub Ring-insert_first :
      (x : ℕ) (xs : List ℕ) (o : ℕ)
      → Distinct (o ∷ x ∷ xs)
      → Inserts (last x xs) x o
      → Ring nxt prv x xs
      → Ring nxt' prv' x (xs ++ o ∷ [])
  Ring-insert_first x xs o d i h =
      Chain-append nxt' prv' x xs o [] x
        (Chain-redirect nxt prv nxt' prv' x xs x o d.1
          (All-map (λ y. o ≢ y) (λ p. p ≢ last x xs → nxt' p ≡ nxt p) (x ∷ xs)
            (λ p ne off. i.next_other p off (λ e. ne (sym e))) d.0)
          (both xs d.1.0 d.0.1) i.next_before i.prev_new h)
        (i.next_new, i.prev_after)
    where
      both :
          (ys : List ℕ) → All (λ y. x ≢ y) ys → All (λ y. o ≢ y) ys → All (λ p. prv' p ≡ prv p) ys
      both [] a b = tt
      both (y ∷ ys) a b = (i.prev_other y (λ e. a.0 (sym e)) (λ e. b.0 (sym e)), both ys a.1 b.1)

  -- Removal of the node that the ring is read from.
  pub Ring-remove_first :
      (x y : ℕ) (ys : List ℕ)
      → Distinct (x ∷ y ∷ ys)
      → Removes (last y ys) x y
      → Ring nxt prv x (y ∷ ys)
      → Ring nxt' prv' y ys
  Ring-remove_first x y ys d r h =
      Chain-redirect nxt prv nxt' prv' y ys x y d.1
        (All-map (λ z. x ≢ z) (λ p. p ≢ last y ys → nxt' p ≡ nxt p) (y ∷ ys)
          (λ p ne off. r.next_other p off (λ e. ne (sym e))) d.0)
        (both ys d.1.0 d.0.1) r.next_before r.prev_after h.1
    where
      both :
          (zs : List ℕ) → All (λ z. y ≢ z) zs → All (λ z. x ≢ z) zs → All (λ p. prv' p ≡ prv p) zs
      both [] a b = tt
      both (z ∷ zs) a b = (r.prev_other z (λ e. a.0 (sym e)) (λ e. b.0 (sym e)), both zs a.1 b.1)

  -- Insertion before any other node.
  pub Ring-insert :
      (a : ℕ) (xs : List ℕ) (z : ℕ) (zs : List ℕ) (o : ℕ)
      → Distinct (o ∷ a ∷ xs ++ z ∷ zs)
      → Inserts (last a xs) z o
      → Ring nxt prv a (xs ++ z ∷ zs)
      → Ring nxt' prv' a (xs ++ o ∷ z ∷ zs)
  Ring-insert a xs z zs o d i h = rw (← append_assoc xs (o ∷ []) (z ∷ zs)) (
      Ring-rotate nxt' prv' z zs a (xs ++ o ∷ []) (
        rw (← append_assoc zs (a ∷ xs) (o ∷ [])) (
          Ring-insert_first z (zs ++ a ∷ xs) o moved (rw (last-append z zs a xs) i)
            (Ring-rotate nxt prv a xs z zs h))))
    where
      moved : Distinct (o ∷ z ∷ zs ++ a ∷ xs)
      moved = (
        All-append (λ y. o ≢ y) (z ∷ zs) (a ∷ xs) (All-right (λ y. o ≢ y) (a ∷ xs) (z ∷ zs) d.0)
            (All-left (λ y. o ≢ y) (a ∷ xs) (z ∷ zs) d.0),
        Distinct-rotate (a ∷ xs) (z ∷ zs) d.1,
      )

  -- Removal of any other node.
  pub Ring-remove :
      (a : ℕ) (xs : List ℕ) (x : ℕ) (ys : List ℕ)
      → Distinct (a ∷ xs ++ x ∷ ys)
      → Removes (last a xs) x (first a ys)
      → Ring nxt prv a (xs ++ x ∷ ys)
      → Ring nxt' prv' a (xs ++ ys)
  Ring-remove a xs x [] d r h = rw (append-nil xs) (
      Ring-remove_first x a xs (Distinct-rotate (a ∷ xs) (x ∷ []) d) r
        (Ring-rotate nxt prv a xs x [] h))
  Ring-remove a xs x (y ∷ ys) d r h = Ring-rotate nxt' prv' y ys a xs (
      Ring-remove_first x y (ys ++ a ∷ xs) (Distinct-rotate (a ∷ xs) (x ∷ y ∷ ys) d)
        (rw (last-append y ys a xs) r) (Ring-rotate nxt prv a xs x (y ∷ ys) h))
