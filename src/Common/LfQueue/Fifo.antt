-- ===== src/Common/LfQueue/Fifo.antt =====
-- utils/lock_free_queue.h: one reader and one writer in turn see a first-in first-out queue, as long
-- as the writer keeps one slot free.
use hft_system.Base.{
  ℕ, zero, suc, ◌+◌, ◌-◌, ◌%◌, ◌<◌, ◌≡◌, ◌≢◌, ◌⊎◌, inl, inr, refl, sym, ap, ap₂, ◌∙◌, Option, none,
  some, List, [], ◌∷◌, ◌++◌, arith, length, get_elem?, set, get_elem?-set_self, get_elem?-set_ne,
  length-set, ℕ_discrete, done, mod_cases, advance_write, meet_iff_empty,
}
use hft_system.Common.LfQueue.{LfQueue, Op, writes, reads, run, consume, push, front, size}
use hft_system.Common.LfQueue.Inv.{
  IsValid, HasRoom, popped, length-push, push-eq-pushed, update_read_index-eq-popped, push-IsValid,
  popped-IsValid, write_in,
}
use native.Mathlib.Numerals.{add-one}

-- One step round the ring, taken from either end of the sum.
shift_lem : (r n c : ℕ) → r < c → suc n < c → (r + suc n) % c ≡ ((r + 1) % c + n) % c
shift_lem r n c hr hn = omega (
  arith,
  mod_cases (r + suc n) c (omega arith),
  mod_cases (r + 1) c (omega arith),
  mod_cases ((r + 1) % c + n) c (omega arith),
)

module _ {ℓ} {T : Type ℓ} where
  abbrev pub prepend : Option T → List T → List T
  prepend none xs = xs
  prepend (some x) xs = x ∷ xs

  -- The `n` elements from index `r` on, going round after `c` slots.
  abbrev pub slots : ℕ → List T → ℕ → ℕ → List T
  slots c store r zero = []
  slots c store r (suc n) = prepend (get_elem? store r) (slots c store ((r + 1) % c) n)

  -- What the queue holds, oldest first.
  abbrev pub contents : LfQueue T → List T
  contents q = slots (length q.store) q.store q.next_read_index q.num_elements

  pub in_store : (xs : List T) (i : ℕ) → i < length xs → (x : T) × (get_elem? xs i ≡ some x)
  in_store [] i h = absurd (omega arith)
  in_store (x ∷ xs) zero h = (x, refl)
  in_store (x ∷ xs) (suc i) h = in_store xs i (omega arith)

  length-prepend : (o : Option T) (x : T) (xs : List T) → o ≡ some x → prepend o xs ≡ x ∷ xs
  length-prepend o x xs e = rw e

  pub length-slots :
      (store : List T) (n r : ℕ) → r < length store → length (slots (length store) store r n) ≡ n
  length-slots store zero r h = refl
  length-slots store (suc n) r h =
      let (x, e) = in_store store r h in
      rw e (ap suc (length-slots store n ((r + 1) % length store) (omega arith)))

  pub length-contents : {q : LfQueue T} → IsValid q → length (contents q) ≡ q.num_elements
  length-contents {q = q} v = length-slots q.store q.num_elements q.next_read_index v.read_in

  -- A write to a slot outside the window leaves the window as it is.
  pub slots-set_outside :
      (store : List T) (c : ℕ) (x : T) (n r i : ℕ)
      → r < c
      → n < c
      → i ≡ (r + n) % c
      → slots c (set store i x) r n ≡ slots c store r n
  slots-set_outside store c x zero r i hr hn e = refl
  slots-set_outside store c x (suc n) r i hr hn e =
      let apart : i ≢ r = omega (arith, mod_cases (r + suc n) c (omega arith)) in
      ap₂ prepend (get_elem?-set_ne store x apart) (
        slots-set_outside store c x n ((r + 1) % c) i (omega arith) (omega arith)
          (e ∙ shift_lem r n c hr hn))

  -- The window grows by the element just past it.
  pub slots-suc :
      (store : List T) (c : ℕ) (x : T) (n r : ℕ)
      → c ≡ length store
      → r < c
      → n < c
      → get_elem? store ((r + n) % c) ≡ some x
      → slots c store r (suc n) ≡ slots c store r n ++ x ∷ []
  slots-suc store c x zero r hc hr hn e =
      let at_r : (r + 0) % c ≡ r = omega (arith, mod_cases (r + 0) c (omega arith)) in
      rw (rw at_r at e)
  slots-suc store c x (suc n) r hc hr hn e =
      let (y, e') = in_store store r (omega arith) in
      rw e' (
        ap (◌∷◌ y) (
          slots-suc store c x n ((r + 1) % c) hc (omega arith) (omega arith)
            (rw (shift_lem r n c hr hn) at e)))

  pub contents-push :
      {q : LfQueue T} (x : T) → IsValid q → HasRoom q → contents (push q x) ≡ contents q ++ x ∷ []
  contents-push {q = q} x v room =
      rw (push-eq-pushed x v, length-set q.store q.next_write_index x, add-one)
        (slots-suc (set q.store w x) c x q.num_elements q.next_read_index (sym len) v.read_in v.few
            (rw (← v.apart) (get_elem?-set_self q.store w x (write_in v)))
          ∙ ap (λ xs. xs ++ x ∷ [])
              (slots-set_outside q.store c x q.num_elements q.next_read_index w v.read_in v.few
                v.apart))
    where
      w : ℕ
      w = q.next_write_index

      c : ℕ
      c = length q.store

      len : length (set q.store w x) ≡ c
      len = length-set q.store w x

  pub slots_of_ne_zero :
      (c : ℕ) (store : List T) (r n : ℕ)
      → n ≢ 0
      → slots c store r n ≡ prepend (get_elem? store r) (slots c store ((r + 1) % c) (n - 1))
  slots_of_ne_zero c store r zero ne = absurd (ne refl)
  slots_of_ne_zero c store r (suc n) ne = ap (λ k. slots c store r (suc k)) (omega arith)

  -- The reader finds the oldest element, and nothing exactly when the queue is empty.
  pub front-cases :
      {q : LfQueue T}
      → IsValid q
      → ((contents q ≡ []) × (front q ≡ none) × (q.num_elements ≡ 0))
        ⊎ ((x : T) × (contents q ≡ x ∷ contents (popped q))
            × (front q ≡ some x)
            × (q.num_elements ≢ 0))
  unfolding front
  front-cases {q = q} v = elim (ℕ_discrete q.num_elements 0) [
    | yes e ↦
        inl (ap (slots (length q.store) q.store q.next_read_index) e, ground (arith, meet.1 e), e)
    | no ne ↦
        let (x, found) = in_store q.store q.next_read_index v.read_in in
        inr (
          x,
          slots_of_ne_zero (length q.store) q.store q.next_read_index q.num_elements ne
              ∙ ap (λ o. prepend o (contents (popped q))) found,
          ground (arith, meet.0, found),
          ne,
        )
  ]
    where
      meet :
          ((q.next_read_index ≡ q.next_write_index) → (q.num_elements ≡ 0))
          × ((q.num_elements ≡ 0) → (q.next_read_index ≡ q.next_write_index))
      meet =
          meet_iff_empty q.next_write_index q.next_read_index q.num_elements (length q.store)
            v.read_in v.few v.apart

  -- The specification: a list, oldest first.
  unfoldable pub fifo : List T → List (Op T) → List (Option T)
  fifo xs [] = []
  fifo xs (writes x ∷ ops) = fifo (xs ++ x ∷ []) ops
  fifo [] (reads ∷ ops) = none ∷ fifo [] ops
  fifo (x ∷ xs) (reads ∷ ops) = some x ∷ fifo xs ops

  -- The writer never fills the last of `c` slots.
  abbrev pub Fits : ℕ → List T → List (Op T) → Type 0
  Fits c xs [] = Unit
  Fits c xs (writes x ∷ ops) = (length xs + 1 < c) × Fits c (xs ++ x ∷ []) ops
  Fits c [] (reads ∷ ops) = Fits c [] ops
  Fits c (x ∷ xs) (reads ∷ ops) = Fits c xs ops

  consume-empty : {q : LfQueue T} → front q ≡ none → consume q ≡ done (none, q)
  unfolding consume
  consume-empty e = ground arith

  consume-some :
      {q : LfQueue T} {x : T}
      → IsValid q
      → q.num_elements ≢ 0
      → front q ≡ some x
      → consume q ≡ done (some x, popped q)
  unfolding consume
  consume-some v ne e = ground (arith, update_read_index-eq-popped v ne)

  -- From a valid queue, calls that keep one slot free never end the process, and every read yields
  -- what the list yields: the oldest element not yet read, or nothing if there is none.
  pub run-eq-fifo :
      (ops : List (Op T)) {q : LfQueue T}
      → IsValid q
      → Fits (length q.store) (contents q) ops
      → run q ops ≡ done (fifo (contents q) ops)
  unfolding run fifo
  run-eq-fifo [] v fits = refl
  run-eq-fifo (writes x ∷ ops) {q = q} v fits =
      let room : HasRoom q = omega (arith, fits.0, length-contents v) in
      run-eq-fifo ops (push-IsValid x v room) (rw (contents-push x v room, length-push q x) fits.1)
      ∙ ap (λ xs. done (fifo xs ops)) (contents-push x v room)
  run-eq-fifo (reads ∷ ops) {q = q} v fits = elim (front-cases v) [
    | inl (e, none_there, _) ↦
        rw (consume-empty none_there, run-eq-fifo ops v (rw e (rw e at fits)), e)
    | inr (x, e, there, ne) ↦
        rw (consume-some v ne there, run-eq-fifo ops (popped-IsValid v ne) (rw e at fits), e)
  ]

  -- The write that fills the last slot makes all of the queue's elements unreadable: the next look
  -- finds nothing, although `size()` counts every slot.
  pub push_full_lem :
      {q : LfQueue T} (x : T)
      → IsValid q
      → q.num_elements + 1 ≡ length q.store
      → (front (push q x) ≡ none) × (size (push q x) ≡ length (push q x).store)
  unfolding front size
  push_full_lem {q = q} x v full =
      rw (push-eq-pushed x v, length-set q.store q.next_write_index x)
        (ground (
          arith,
          advance_write q.next_write_index q.next_read_index q.num_elements (length q.store)
              (write_in v) v.read_in v.few v.apart,
          mod_cases (q.next_read_index + (q.num_elements + 1)) (length q.store) (omega arith),
        ))
