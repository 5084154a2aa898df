-- ===== src/Common/Node/Writes.antt =====
-- One write to a pointer of a node in use: what it changes and what it keeps.
use hft_system.Base.{
  ℕ, ◌≡◌, refl, ◌∙◌, Option, none, some, ◌==◌, arith, if◌then◌else◌, length, done, Option-cases,
  inl, inr,
}
use hft_system.Common.MemPool.{MemPool, live, load, modify}
use hft_system.Common.MemPool.Access.{Untouched, modify-Wrote, load-live}
use hft_system.Common.Node.{Node, next_at, prev_at, payload_at, read_payload}

module _ {T : Type 0} ⦃node : Node T⦄ where
  abbrev pub IsLive : MemPool T → ℕ → Type 0
  IsLive p i = (x : T) × (live p i ≡ some x)

  -- Only pointers change.
  pub record Edits (p p' : MemPool T) : Type 0 where
    pub payloads : (j : ℕ) → payload_at p' j ≡ payload_at p j
    pub length_kept : length p'.store ≡ length p.store
    pub next_kept : p'.next_free_index ≡ p.next_free_index

  pub record SetsNext (p p' : MemPool T) (i : ℕ) (v : Option ℕ) : Type 0 where
    pub edits : Edits p p'
    pub nexts : (j : ℕ) → next_at p' j ≡ (if j == i then v else next_at p j)
    pub prevs : (j : ℕ) → prev_at p' j ≡ prev_at p j

  pub record SetsPrev (p p' : MemPool T) (i : ℕ) (v : Option ℕ) : Type 0 where
    pub edits : Edits p p'
    pub nexts : (j : ℕ) → next_at p' j ≡ next_at p j
    pub prevs : (j : ℕ) → prev_at p' j ≡ (if j == i then v else prev_at p j)

  pub Edits-refl : (p : MemPool T) → Edits p p
  Edits-refl p = record { payloads = λ j. refl; length_kept = refl; next_kept = refl }

  pub Edits-trans : {p q r : MemPool T} → Edits p q → Edits q r → Edits p r
  Edits-trans e f = record {
    payloads = λ j. f.payloads j ∙ e.payloads j;
    length_kept = f.length_kept ∙ e.length_kept;
    next_kept = f.next_kept ∙ e.next_kept;
  }

  live_of_payload :
      (o o' : Option T)
      → read_payload o' ≡ read_payload o
      → (x : T) → o ≡ some x
      → (y : T) × (o' ≡ some y)
  live_of_payload o none e x h = absurd (ground arith)
  live_of_payload o (some y) e x h = (y, refl)

  dead_of_payload : (o o' : Option T) → read_payload o' ≡ read_payload o → o ≡ none → o' ≡ none
  dead_of_payload o none e h = refl
  dead_of_payload o (some y) e h = absurd (ground arith)

  pub Edits-IsLive : {p q : MemPool T} (i : ℕ) → Edits p q → IsLive p i → IsLive q i
  Edits-IsLive {p} {q} i e (x, at) = live_of_payload (live p i) (live q i) (e.payloads i) x at

  pub Edits-Untouched : {p q : MemPool T} → Edits p q → Untouched p → Untouched q
  Edits-Untouched {p} {q} e u = record {
    next_in = rw (e.next_kept, e.length_kept) u.next_in;
    free_from = λ k from below.
        dead_of_payload (live p k) (live q k) (e.payloads k)
          (u.free_from k (rw e.next_kept at from) (rw e.length_kept at below));
  }

  pub modify-SetsNext :
      (p : MemPool T) (i : ℕ) (v : Option ℕ)
      → IsLive p i
      → (p' : MemPool T) × (modify (some i) (node.with_next v) p ≡ done p') × SetsNext p p' i v
  modify-SetsNext p i v (x, at) =
      let (p', ok, w) = modify-Wrote p i (node.with_next v) at in
      (
        p',
        ok,
        record {
          edits = record {
            payloads = λ j. rw (w.live_at j) (ground (arith, node.payload-with_next v x, at));
            length_kept = w.length_kept;
            next_kept = w.next_kept;
          };
          nexts = λ j. rw (w.live_at j) (ground (arith, node.next-with_next v x));
          prevs = λ j. rw (w.live_at j) (ground (arith, node.prev-with_next v x, at));
        },
      )

  pub modify-SetsPrev :
      (p : MemPool T) (i : ℕ) (v : Option ℕ)
      → IsLive p i
      → (p' : MemPool T) × (modify (some i) (node.with_prev v) p ≡ done p') × SetsPrev p p' i v
  modify-SetsPrev p i v (x, at) =
      let (p', ok, w) = modify-Wrote p i (node.with_prev v) at in
      (
        p',
        ok,
        record {
          edits = record {
            payloads = λ j. rw (w.live_at j) (ground (arith, node.payload-with_prev v x, at));
            length_kept = w.length_kept;
            next_kept = w.next_kept;
          };
          nexts = λ j. rw (w.live_at j) (ground (arith, node.next-with_prev v x, at));
          prevs = λ j. rw (w.live_at j) (ground (arith, node.prev-with_prev v x));
        },
      )

  -- A pointer that was read is the pointer of an object in use.
  pub load-next :
      (p : MemPool T) (i l : ℕ)
      → next_at p i ≡ some l
      → (t : T) × (load (some i) p ≡ done t) × (node.next t ≡ some l) × (live p i ≡ some t)
  load-next p i l e = elim (Option-cases (live p i)) [
    | inl dead ↦ absurd (ground (arith, dead))
    | inr (t, at) ↦ (t, load-live p i at, ground (arith, at), at)
  ]

  pub load-prev :
      (p : MemPool T) (i l : ℕ)
      → prev_at p i ≡ some l
      → (t : T) × (load (some i) p ≡ done t) × (node.prev t ≡ some l) × (live p i ≡ some t)
  load-prev p i l e = elim (Option-cases (live p i)) [
    | inl dead ↦ absurd (ground (arith, dead))
    | inr (t, at) ↦ (t, load-live p i at, ground (arith, at), at)
  ]
