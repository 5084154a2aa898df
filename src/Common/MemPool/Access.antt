-- ===== src/Common/MemPool/Access.antt =====
-- Reads and writes through pointers into a pool, and the part of the pool never handed out yet.
use hft_system.Base.{
  ℕ, ◌+◌, ◌≤◌, ◌<◌, ◌≡◌, refl, ap, ◌∙◌, false, none, some, ◌==◌, arith, if◌then◌else◌, length,
  get_elem?, set, length-set, get_elem?-set, lt-length, done, Option-cases, inl, inr, ge-length,
  Bool-cases, subst,
}
use hft_system.Base.Int.{pos}
use hft_system.Common.MemPool.{ObjectBlock, MemPool, allocate, deallocate, live, load, modify}
use hft_system.Common.MemPool.Laws.{FreeAt, IsValid, allocate-IsValid, deallocate-IsValid}

module _ {T : Type 0} where
  -- Every block from the next free one on is free, and there is such a block.
  pub record Untouched (p : MemPool T) : Type 0 where
    pub next_in : p.next_free_index < length p.store
    pub free_from : (k : ℕ) → p.next_free_index ≤ k → k < length p.store → live p k ≡ none

  -- One more allocation is possible.
  abbrev pub HasSpare : MemPool T → Type 0
  HasSpare p = p.next_free_index + 1 < length p.store

  pub free_of_dead :
      (p : MemPool T) (k : ℕ) → k < length p.store → live p k ≡ none → FreeAt p.store k
  unfolding live
  free_of_dead p k h e = elim (Option-cases (get_elem? p.store k)) [
    | inl out ↦ absurd (omega (arith, ge-length p.store k out))
    | inr (b, at) ↦ (b, at, ground arith)
  ]

  dead_of_free : (p : MemPool T) (k : ℕ) → FreeAt p.store k → live p k ≡ none
  unfolding live
  dead_of_free p k (b, at, f) = ground arith

  Untouched-IsValid : (p : MemPool T) → Untouched p → IsValid p
  Untouched-IsValid p u =
      free_of_dead p p.next_free_index u.next_in
        (u.free_from p.next_free_index (omega arith) u.next_in)

  block_of_live :
      (p : MemPool T) (i : ℕ) {x : T}
      → live p i ≡ some x
      → (b : ObjectBlock T) × (get_elem? p.store i ≡ some b) × (b.is_free ≡ false) × (b.object ≡ x)
  unfolding live
  block_of_live p i e = elim (Option-cases (get_elem? p.store i)) [
    | inl out ↦ absurd (ground arith)
    | inr (b, at) ↦ (b, at, ground arith, ground arith)
  ]

  pub lt-live : (p : MemPool T) (i : ℕ) {x : T} → live p i ≡ some x → i < length p.store
  lt-live p i e = let (b, at, _, _) = block_of_live p i e in lt-length p.store i at

  pub load-live : (p : MemPool T) (i : ℕ) {x : T} → live p i ≡ some x → load (some i) p ≡ done x
  unfolding load
  load-live p i e = let (b, at, used, same) = block_of_live p i e in rw at (ap done same)

  -- What a write leaves: the object changed, and nothing else.
  pub record Wrote (p p' : MemPool T) (i : ℕ) (y : T) : Type 0 where
    pub live_at : (j : ℕ) → live p' j ≡ (if j == i then some y else live p j)
    pub length_kept : length p'.store ≡ length p.store
    pub next_kept : p'.next_free_index ≡ p.next_free_index

  pub modify-Wrote :
      (p : MemPool T) (i : ℕ) (change : T → T) {x : T}
      → live p i ≡ some x
      → (p' : MemPool T) × (modify (some i) change p ≡ done p') × Wrote p p' i (change x)
  unfolding modify live
  modify-Wrote p i change {x = x} e =
      let (b, at, used, same) = block_of_live p i e in
      (
        record p { store = set p.store i (record b { object = change b.object }) },
        rw at,
        record {
          live_at = λ j.
              rw
                (
                  live,
                  get_elem?-set p.store i j (record b { object = change b.object })
                      (lt-length p.store i at),
                )
                (ground (arith, same, used));
          length_kept = length-set p.store i _;
          next_kept = refl;
        },
      )

  pub Wrote-Untouched :
      {p p' : MemPool T} {i : ℕ} {y x : T}
      → Wrote p p' i y
      → live p i ≡ some x
      → Untouched p
      → Untouched p'
  Wrote-Untouched {p} {p'} {i} w e u = record {
    next_in = rw (w.next_kept, w.length_kept) u.next_in;
    free_from = λ k from below.
        let old : live p k ≡ none =
          u.free_from k (rw w.next_kept at from) (rw w.length_kept at below) in
        w.live_at k ∙ ground (arith, old, e);
  }

  pub allocate-Untouched :
      (x : T) (p : MemPool T)
      → Untouched p
      → HasSpare p
      → (p' : MemPool T) × (allocate x p ≡ done (p.next_free_index, p'))
        × Untouched p'
        × (live p p.next_free_index ≡ none)
        × ((j : ℕ) → live p' j ≡ (if j == p.next_free_index then some x else live p j))
        × (length p'.store ≡ length p.store)
        × (p'.next_free_index ≡ p.next_free_index + 1)
  allocate-Untouched x p u spare =
      let n = p.next_free_index in
      let above : live p (n + 1) ≡ none = u.free_from (n + 1) (omega arith) spare in
      let (p', e, v, dead, lives, size, far, near) =
        allocate-IsValid x p (n + 1) (Untouched-IsValid p u) (omega arith)
          (free_of_dead p (n + 1) spare above) in
      let next : p'.next_free_index ≡ n + 1 = omega arith in
      (
        p',
        e,
        record {
          next_in = rw (next, size) spare;
          free_from = λ k from below.
              let old : live p k ≡ none = u.free_from k (omega arith) (rw size at below) in
              lives k ∙ ground (arith, old);
        },
        dead,
        lives,
        size,
        next,
      )

  pub deallocate-Untouched :
      (i : ℕ) (p : MemPool T) {x : T}
      → Untouched p
      → live p i ≡ some x
      → (p' : MemPool T) × (deallocate (pos i) p ≡ done p')
        × Untouched p'
        × ((j : ℕ) → live p' j ≡ (if j == i then none else live p j))
        × (length p'.store ≡ length p.store)
        × (p'.next_free_index ≡ p.next_free_index)
  deallocate-Untouched i p u e =
      let (p', ok, v, lives, size, next) = deallocate-IsValid i p (Untouched-IsValid p u) e in
      (
        p',
        ok,
        record {
          next_in = rw (next, size) u.next_in;
          free_from = λ k from below.
              let old : live p k ≡ none = u.free_from k (rw next at from) (rw size at below) in
              lives k ∙ ground (arith, old);
        },
        lives,
        size,
        next,
      )

-- A pool of which two blocks are left.
pub two_left :
    {T : Type 0} (p : MemPool T) (n k : ℕ)
    → live p n ≡ none
    → live p (n + 1) ≡ none
    → n ≤ k
    → k < n + 2
    → live p k ≡ none
two_left p n k h h' from below = elim (Bool-cases (k == n)) [
  | inl here ↦ let same : n ≡ k = ground (arith, here) in subst (λ i. live p i ≡ none) same h
  | inr there ↦
      let same : n + 1 ≡ k = ground (arith, there, from, below) in
      subst (λ i. live p i ≡ none) same h'
]
