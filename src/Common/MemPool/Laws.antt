-- ===== src/Common/MemPool/Laws.antt =====
-- utils/mem_pool.h: what a client may rely on, and where the search for a free block leaves the vector.
use hft_system.Base.{
  ℕ, zero, suc, ◌+◌, ◌≤◌, ◌<◌, ◌≡◌, ◌≢◌, refl, ap, ◌∙◌, inl, inr, true, false, none, some, List, [],
  ◌∷◌, ◌==◌, arith, if◌then◌else◌, length, get_elem?, set, drop, length-set, get_elem?-set,
  get_elem?-drop, length-drop, lt-length, ge-length, get_elem?-set_self, get_elem?-set_ne, sym, ◌-◌,
  done, exits, undefined, ◌>>=◌, ℕ_discrete, Bool-cases, Option-cases,
}
use hft_system.Base.Int.{ℤ, pos, negsuc}
use hft_system.Common.MemPool.{
  ObjectBlock, MemPool, scan, update_next_free_index, allocate, deallocate, live,
}

module _ {ℓ} {T : Type ℓ} where
  abbrev pub FreeAt : List (ObjectBlock T) → ℕ → Type ℓ
  FreeAt store i = (b : ObjectBlock T) × (get_elem? store i ≡ some b) × (b.is_free ≡ true)

  abbrev pub UsedAt : List (ObjectBlock T) → ℕ → Type ℓ
  UsedAt store i = (b : ObjectBlock T) × (get_elem? store i ≡ some b) × (b.is_free ≡ false)

  -- The next block to be handed out is free.
  abbrev pub IsValid : MemPool T → Type ℓ
  IsValid p = FreeAt p.store p.next_free_index

  -- The search finds a free block, if there is one at distance `k`.
  scan-finds :
      (bs : List (ObjectBlock T)) (i k : ℕ)
      → FreeAt bs k
      → (j : ℕ) × (scan bs i ≡ done (i + j)) × FreeAt bs j × (j ≤ k)
  unfolding scan
  scan-finds [] i k (b, e, f) = cc
  scan-finds (x ∷ bs) i zero (b, e, f) = (0, ground arith, (x, refl, ground arith), omega arith)
  scan-finds (x ∷ bs) i (suc k) h = elim (Bool-cases x.is_free) [
    | inl free ↦ (0, ground arith, (x, refl, free), omega arith)
    | inr used ↦
        let (j, e, f, near) = scan-finds bs (i + 1) k h in
        (suc j, rw (used, e) (ap done (omega arith)), f, omega arith)
  ]

  -- With no free block left it runs off the end.
  scan-overruns :
      (bs : List (ObjectBlock T)) (i : ℕ)
      → ((k : ℕ) → k < length bs → UsedAt bs k)
      → scan bs i ≡ undefined
  unfolding scan
  scan-overruns [] i all = refl
  scan-overruns (x ∷ bs) i all =
      let (b, e, f) = all 0 (omega arith) in
      let used : x.is_free ≡ false = ground arith in
      rw used (scan-overruns bs (i + 1) (λ k h. all (suc k) (omega arith)))

  live-set :
      (p : MemPool T) (i j n : ℕ) (b : ObjectBlock T)
      → i < length p.store
      → live (record { store = set p.store i b; next_free_index = n }) j
        ≡ (if j == i then (if b.is_free then none else some b.object) else live p j)
  unfolding live
  live-set p i j n b h = rw (live, get_elem?-set p.store i j b h) (ground arith)

  -- What `allocate` writes into the block that it hands out.
  abbrev taking : T → MemPool T → List (ObjectBlock T)
  taking x p = set p.store p.next_free_index (record { object = x; is_free = false })

  next_in : (p : MemPool T) → IsValid p → p.next_free_index < length p.store
  next_in p (b, e, f) = lt-length p.store p.next_free_index e

  allocate-eq :
      (x : T) (p : MemPool T)
      → IsValid p
      → allocate x p ≡ (
          update_next_free_index (record p { store = taking x p }) >>= λ p'.
          done (p.next_free_index, p'))
  unfolding allocate
  allocate-eq x p (b, e, f) = rw (e, f)

  update-eq :
      (p : MemPool T) (m : ℕ)
      → scan (drop p.next_free_index p.store) p.next_free_index ≡ done m
      → m < length p.store
      → p.next_free_index ≢ m
      → update_next_free_index p ≡ done (record p { next_free_index = m })
  unfolding update_next_free_index
  update-eq p m e h ne = ground arith

  -- The search from a block that has just been taken ends at a free block above it.
  search :
      (p : MemPool T) (k : ℕ)
      → UsedAt p.store p.next_free_index
      → p.next_free_index < k
      → FreeAt p.store k
      → (m : ℕ) × (update_next_free_index p ≡ done (record p { next_free_index = m }))
        × FreeAt p.store m
        × (p.next_free_index < m)
        × (m ≤ k)
  search p k (u, at_u, used) above (b, e, f) =
      let n = p.next_free_index in
      let step : n + (k - n) ≡ k = omega arith in
      let (j, found, (c, at_c, free), near) =
        scan-finds (drop n p.store) n (k - n)
          (b, get_elem?-drop p.store n (k - n) ∙ rw step e, f) in
      let here : get_elem? p.store (n + j) ≡ some c = sym (get_elem?-drop p.store n j) ∙ at_c in
      let apart : n ≢ n + j =
        λ same. absurd (differ u c (sym at_u ∙ ap (get_elem? p.store) same ∙ here) used free) in
      (
        n + j,
        update-eq p (n + j) found (lt-length p.store (n + j) here) apart,
        (c, here, free),
        omega arith,
        omega arith,
      )
    where
      differ : (u c : ObjectBlock T) → some u ≡ some c → u.is_free ≡ false → c.is_free ≡ true → ⊥
      differ u c e used free = ground arith

  taking-used : (x : T) (p : MemPool T) → IsValid p → UsedAt (taking x p) p.next_free_index
  taking-used x p v = (_, get_elem?-set_self p.store p.next_free_index _ (next_in p v), refl)

  taking-at :
      (x : T) (p : MemPool T) (k : ℕ)
      → IsValid p
      → p.next_free_index < k
      → get_elem? (taking x p) k ≡ get_elem? p.store k
  taking-at x p k v above = get_elem?-set_ne p.store _ (omega arith)

  -- A valid pool with a free block above the next one hands out a block that was not in use, changes
  -- nothing else that is in use, keeps its size and stays valid; its next block is above the last one
  -- and no further than the free block given.
  pub allocate-IsValid :
      (x : T) (p : MemPool T) (k : ℕ)
      → IsValid p
      → p.next_free_index < k
      → FreeAt p.store k
      → (p' : MemPool T) × (allocate x p ≡ done (p.next_free_index, p'))
        × IsValid p'
        × (live p p.next_free_index ≡ none)
        × ((j : ℕ) → live p' j ≡ (if j == p.next_free_index then some x else live p j))
        × (length p'.store ≡ length p.store)
        × (p.next_free_index < p'.next_free_index)
        × (p'.next_free_index ≤ k)
  unfolding live
  allocate-IsValid x p k v above (b, e, f) =
      let (m, updated, free, far, near) =
        search (record p { store = taking x p }) k (taking-used x p v) above
          (b, taking-at x p k v above ∙ e, f) in
      (
        record { store = taking x p; next_free_index = m },
        allocate-eq x p v ∙ rw updated,
        free,
        rw (live, v.1, v.2),
        (λ j. live-set p p.next_free_index j m _ (next_in p v)),
        length-set p.store p.next_free_index _,
        far,
        near,
      )

  -- A valid pool with no free block above the next one reads past its end, even if blocks below have
  -- been given back.
  pub allocate_overruns :
      (x : T) (p : MemPool T)
      → IsValid p
      → ((k : ℕ) → p.next_free_index < k → k < length p.store → UsedAt p.store k)
      → allocate x p ≡ undefined
  unfolding update_next_free_index
  allocate_overruns x p v all = allocate-eq x p v ∙ rw (scan-overruns (drop n (taking x p)) n used)
    where
      n : ℕ
      n = p.next_free_index

      size : length (taking x p) ≡ length p.store
      size = length-set p.store n _

      used : (k : ℕ) → k < length (drop n (taking x p)) → UsedAt (drop n (taking x p)) k
      used k h = elim (ℕ_discrete k 0) [
        | yes e ↦
            let at_n : n + k ≡ n = omega arith in
            let (u, at_u, taken) = taking-used x p v in
            (u, get_elem?-drop (taking x p) n k ∙ rw at_n at_u, taken)
        | no ne ↦
            let (u, at_u, taken) =
              all (n + k) (omega arith) (omega (arith, size, length-drop n (taking x p))) in
            (
              u,
              get_elem?-drop (taking x p) n k ∙ taking-at x p (n + k) v (omega arith) ∙ at_u,
              taken,
            )
      ]

  -- Giving back an object in use frees its block and no other, and keeps the pool valid.
  pub deallocate-IsValid :
      (i : ℕ) (p : MemPool T) {x : T}
      → IsValid p
      → live p i ≡ some x
      → (p' : MemPool T) × (deallocate (pos i) p ≡ done p')
        × IsValid p'
        × ((j : ℕ) → live p' j ≡ (if j == i then none else live p j))
        × (length p'.store ≡ length p.store)
        × (p'.next_free_index ≡ p.next_free_index)
  unfolding deallocate live
  deallocate-IsValid i p v e = elim (Option-cases (get_elem? p.store i)) [
    | inl missing ↦ absurd (ground arith)
    | inr (b, there) ↦ (
      record p { store = set p.store i (record b { is_free = true }) },
      ground (arith, lt-length p.store i there),
      (elim (ℕ_discrete i p.next_free_index) [
        | yes same ↦ (
          record b { is_free = true },
          rw (← same) (get_elem?-set_self p.store i _ (lt-length p.store i there)),
          refl,
        )
        | no apart ↦ (v.0, get_elem?-set_ne p.store _ apart ∙ v.1, v.2)
      ]),
      (λ j. live-set p i j p.next_free_index _ (lt-length p.store i there)),
      length-set p.store i _,
      refl,
    )
  ]

  -- Giving back a pointer that is not to an object in use, be it free, past the end or before the
  -- vector, ends the process.
  pub deallocate_refuses :
      (i : ℤ) (p : MemPool T) → ((n : ℕ) → i ≡ pos n → live p n ≡ none) → deallocate i p ≡ exits
  unfolding deallocate live
  deallocate_refuses (negsuc n) p dead = refl
  deallocate_refuses (pos n) p dead = elim (Option-cases (get_elem? p.store n)) [
    | inl e ↦ ground (arith, ge-length p.store n e)
    | inr (b, e) ↦ ground (arith, lt-length p.store n e, dead n refl)
  ]
